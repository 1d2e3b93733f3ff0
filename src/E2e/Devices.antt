-- ===== src/E2e/Devices.antt =====
-- js/core/protocol/src/e2e/device-state.ts: the keys of a device, their publication and renewal. The
-- key pairs that the code generates and the signature of signed-pre-key.ts are arguments, as is the
-- time. The directories over all devices, which sort by the locale, are not modelled.
pub mod Renewal
use a.Base.{
  leb, nat_beq, if◌then◌else◌, length, filter, Map, lookup, Result, ◌>>=◌, ◌>>◌, or_throw, ok,
  sort_by, ℕ, zero, suc, ◌+◌, ◌-◌, ◌*◌, String, Bool, true, Option, none, some, List, [], ◌∷◌, map,
  string_eq,
}
use a.E2e.Types.{Bytes, Hex, LocalDeviceKeyPair}
use a.E2e.Crypto.{Crypto}
use a.E2e.Session.{X25519KeyPair}
use a.E2e.Bootstrap.{
  PublishedOneTimePreKey, PublishedDeviceDirectoryEntry, ClaimedPreKeyBundle,
  LocalSignedPreKeyState, LocalOneTimePreKeyState, LocalDeviceState, LocalE2eConfig, with_device,
}

pub data DeviceError : Type 0 where
  missing_device_state : DeviceError

abbrev pub default_one_time_pre_key_count : ℕ
default_one_time_pre_key_count = 16

pub record PublishedPreKeyBundle : Type 0 where
  pub entry : PublishedDeviceDirectoryEntry
  pub open entry use *
  pub one_time_pre_keys : List PublishedOneTimePreKey

abbrev pub max : ℕ → ℕ → ℕ
max m n = if leb m n then n else m

-- `!key.claimedAt`: a time of 0 counts as none.
abbrev pub is_unset : Option ℕ → Bool
is_unset none = true
is_unset (some t) = nat_beq t 0

unfoldable pub is_unclaimed : LocalOneTimePreKeyState → Bool
is_unclaimed k = is_unset k.claimed_at

unfoldable pub build_published_one_time_pre_keys : LocalDeviceState → List PublishedOneTimePreKey
build_published_one_time_pre_keys device =
    map (λ k. record { key_id = k.key_id; public_key = k.public_key })
      (sort_by (λ k. k.key_id) (filter is_unclaimed device.one_time_pre_keys))

unfoldable pub unclaimed_count : LocalDeviceState → ℕ
unclaimed_count device = length (filter is_unclaimed device.one_time_pre_keys)

unfoldable pub max_id : Map String LocalDeviceState → ℕ
max_id [] = 0
max_id ((_, d) ∷ ds) = max d.signed_pre_key.signed_pre_key_id (max_id ds)

unfoldable pub next_signed_pre_key_id : LocalE2eConfig → Option ℕ → ℕ
next_signed_pre_key_id config (some id) = id
next_signed_pre_key_id config none = max_id config.devices + 1

unfoldable pub build_published_device_directory_entry :
    LocalDeviceState → PublishedDeviceDirectoryEntry
build_published_device_directory_entry device = record {
  device_id = device.device_id;
  identity_key_public = device.identity_key.public_key;
  signed_pre_key_public = device.signed_pre_key.public_key;
  signed_pre_key_id = device.signed_pre_key.signed_pre_key_id;
  signed_pre_key_signature = device.signed_pre_key.signature;
  one_time_pre_key_count = unclaimed_count device;
  last_resupply_at = device.last_resupply_at;
}

unfoldable pub build_published_pre_key_bundle : LocalDeviceState → PublishedPreKeyBundle
build_published_pre_key_bundle device = record {
  entry = build_published_device_directory_entry device;
  one_time_pre_keys = build_published_one_time_pre_keys device;
}

abbrev pub remaining_count : PublishedPreKeyBundle → Option PublishedOneTimePreKey → ℕ
remaining_count bundle none = length bundle.one_time_pre_keys
remaining_count bundle (some _) = length bundle.one_time_pre_keys - 1

unfoldable pub build_claimed_pre_key_bundle :
    PublishedPreKeyBundle → Option PublishedOneTimePreKey → ClaimedPreKeyBundle
build_claimed_pre_key_bundle bundle key = record {
  entry = record bundle.entry { one_time_pre_key_count = remaining_count bundle key };
  one_time_pre_key = key;
  remaining_one_time_pre_key_count = remaining_count bundle key;
}

abbrev pub or_at_least_default : Option ℕ → ℕ → ℕ
or_at_least_default none left = max left default_one_time_pre_key_count
or_at_least_default (some n) left = n

module _ (crypto : Crypto) where
  open crypto use {to_hex}

  -- `count` keys from the id `id` on, of the pairs that are generated
  unfoldable pub one_time_pre_keys_from :
      (ℕ → X25519KeyPair) → ℕ → ℕ → ℕ → List LocalOneTimePreKeyState
  one_time_pre_keys_from fresh now id zero = []
  one_time_pre_keys_from fresh now id (suc n) =
      record {
        key_id = id;
        public_key = to_hex (fresh id).public_key;
        private_key = to_hex (fresh id).private_key;
        created_at = now;
        claimed_at = none;
      }
      ∷ one_time_pre_keys_from fresh now (id + 1) n

  unfoldable pub build_one_time_pre_keys :
      (ℕ → X25519KeyPair) → ℕ → ℕ → List LocalOneTimePreKeyState
  build_one_time_pre_keys fresh count now = one_time_pre_keys_from fresh now 1 count

  unfoldable pub resupply_local_device_one_time_pre_keys :
      LocalE2eConfig
      → String
      → Option ℕ
      → (ℕ → X25519KeyPair)
      → ℕ
      → Result DeviceError LocalE2eConfig
  resupply_local_device_one_time_pre_keys config device_id count fresh now = do
    device ← or_throw (lookup device_id config.devices) missing_device_state
    ok (
        with_device config device_id (record device {
          one_time_pre_keys =
              build_one_time_pre_keys fresh (or_at_least_default count (unclaimed_count device))
                now;
          last_resupply_at = now;
        }))

  -- `sign` is `signSignedPreKeyRecord` under the private key.
  unfoldable pub new_signed_pre_key :
      (String → ℕ → Bytes → Bytes) → String → ℕ → X25519KeyPair → ℕ → LocalSignedPreKeyState
  new_signed_pre_key sign device_id id pair now = record {
    signed_pre_key_id = id;
    public_key = to_hex pair.public_key;
    private_key = to_hex pair.private_key;
    signature = to_hex (sign device_id id pair.public_key);
    created_at = now;
  }

  unfoldable pub rotate_local_device_signed_pre_key :
      (String → ℕ → Bytes → Bytes)
      → LocalE2eConfig
      → String
      → Option ℕ
      → Option ℕ
      → X25519KeyPair
      → (ℕ → X25519KeyPair)
      → ℕ
      → Result DeviceError LocalE2eConfig
  rotate_local_device_signed_pre_key sign config device_id id count pair fresh now = do
    device ← or_throw (lookup device_id config.devices) missing_device_state
    ok (
        with_device config device_id (record device {
          signed_pre_key =
              new_signed_pre_key sign device_id (next_signed_pre_key_id config id) pair now;
          one_time_pre_keys =
              build_one_time_pre_keys fresh (or_at_least_default count (unclaimed_count device))
                now;
          last_resupply_at = now;
        }))

  -- The identity's pair and the signed pre-key's; options that are left out have their defaults here.
  unfoldable pub create_local_device_state :
      (String → ℕ → Bytes → Bytes)
      → String
      → ℕ
      → ℕ
      → X25519KeyPair
      → X25519KeyPair
      → (ℕ → X25519KeyPair)
      → ℕ
      → LocalDeviceState
  create_local_device_state sign device_id id count identity pair fresh now = record {
    device_id = device_id;
    created_at = now;
    identity_key = record {
      public_key = to_hex identity.public_key;
      private_key = to_hex identity.private_key;
    };
    signed_pre_key = new_signed_pre_key sign device_id id pair now;
    one_time_pre_keys = build_one_time_pre_keys fresh count now;
    last_resupply_at = now;
    sessions = [];
  }
