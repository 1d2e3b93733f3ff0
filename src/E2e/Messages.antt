-- ===== src/E2e/Messages.antt =====
-- js/core/protocol/src/e2e/messages.ts: sealing a message under the CBOR encoding of its header.
-- The wire decoding of untyped CBOR values is not modelled.
use a.Base.{Result, ◌>>=◌, ok}
use a.E2e.Types.{Bytes, EncryptionError, SessionHeader, SessionMessage, PreKeyHeader, PreKeyMessage}
use a.E2e.Crypto.{Crypto, encrypt_xchacha20_poly1305, decrypt_xchacha20_poly1305}

module _ (crypto : Crypto) where
  unfoldable pub build_session_message_associated_data : SessionHeader → Bytes
  build_session_message_associated_data = crypto.encode_session_header

  unfoldable pub build_pre_key_message_associated_data : PreKeyHeader → Bytes
  build_pre_key_message_associated_data = crypto.encode_pre_key_header

  unfoldable pub encrypt_session_message :
      SessionHeader → Bytes → Bytes → Result EncryptionError SessionMessage
  unfolding build_session_message_associated_data encrypt_xchacha20_poly1305
  encrypt_session_message header key plaintext = do
    ciphertext ←
        encrypt_xchacha20_poly1305 crypto key header.nonce plaintext
          (build_session_message_associated_data header)
    ok (record { header = header; ciphertext = ciphertext })

  unfoldable pub decrypt_session_message : SessionMessage → Bytes → Result EncryptionError Bytes
  unfolding build_session_message_associated_data decrypt_xchacha20_poly1305
  decrypt_session_message message key =
      decrypt_xchacha20_poly1305 crypto key message.nonce message.ciphertext
        (build_session_message_associated_data message.header)

  unfoldable pub encrypt_pre_key_message :
      PreKeyHeader → Bytes → Bytes → Result EncryptionError PreKeyMessage
  encrypt_pre_key_message header key plaintext = do
    ciphertext ←
        encrypt_xchacha20_poly1305 crypto key header.nonce plaintext
          (build_pre_key_message_associated_data header)
    ok (record { header = header; ciphertext = ciphertext })

  unfoldable pub decrypt_pre_key_message : PreKeyMessage → Bytes → Result EncryptionError Bytes
  decrypt_pre_key_message message key =
      decrypt_xchacha20_poly1305 crypto key message.header.nonce message.ciphertext
        (build_pre_key_message_associated_data message.header)
