-- ===== src/Aegis/Schema.antt =====
-- Credential schemas (programs/aegis/src/instructions/schema.rs).
use vesta_core.Base.{ℕ, true, false, Option, none, leb, ◌==◌, length, Result, ok, ◌>>◌, require}
use vesta_core.Aegis.Error.{AegisError, string_too_long, unauthorized}
use vesta_core.Aegis.State.{Pubkey, Hash, Text, state_version, max_standard_uri_len, Schema}

pub handle_register_schema : Pubkey → ℕ → ℕ → Hash → Text → Option Pubkey → Result AegisError Schema
handle_register_schema registrar bump id content_hash standard_uri sas_schema = do
  require (leb (length standard_uri) max_standard_uri_len) string_too_long
  ok (record {
    version = state_version;
    registrar = registrar;
    id = id;
    content_hash = content_hash;
    standard_uri = standard_uri;
    sas_schema = sas_schema;
    deprecated = false;
    successor = none;
    bump = bump;
  })

pub handle_deprecate_schema : Schema → Pubkey → Option Pubkey → Result AegisError Schema
handle_deprecate_schema s signer successor = do
  require (s.registrar == signer) unauthorized
  ok (record s { deprecated = true; successor = successor })
