-- ===== src/Relay/Federation/Dispatch/Gate.antt =====
-- What a relay that is not admitted on both sides can bring about in federation-manager.ts.
use a.Base.{All, String, ◌≡◌, true, List, string_eq}
use a.Relay.Level.{Level}
use a.Relay.PreKeys.{StoredPreKeyBundleRecord}
use a.Relay.Federation.Types.{Output}
use a.Relay.Federation.Dispatch.{Surroundings, Relay}
use a.Relay.Federation.Dispatch.Harmless.{is_harmless, KeepsRoutes}

module _ (level : Level StoredPreKeyBundleRecord) where
  -- The store of pre-keys is as before, the routes are, or are without those to the relay, and only
  -- what is harmless goes out.
  abbrev pub IsUntouched : Surroundings → String → Relay level → Relay level × List Output → Type 0
  IsUntouched s did r done =
      KeepsRoutes did r.manager.remote_agent_routes done.0.manager.remote_agent_routes
      × (done.0.pre_key_store ≡ r.pre_key_store)
      × All (λ o. is_harmless s.config.exports s.agents o ≡ true) done.1
