-- ===== src/Domain/Prompt.antt =====
-- crates/domain/src/prompt.rs: the identity of a prompt and of its tool catalog. All bytes of a digest
-- are ASCII, so it is read by characters, of which it has as many as bytes.
use Prim.Native.Char.{Char, code}
use Prim.Native.String.{String, [], ◌∷◌}
use hermes_rs.Prelude.{
  ℕ, suc, Bool, true, not, ◌&&◌, ◌||◌, Result, ok, err, if◌then◌else◌, leb, ◌==◌, nat_eq, string_eq,
}
use hermes_rs.Prelude.Text.{is_empty, trim}

pub record EngineId : Type 0 where
  pub value : String

pub record ManifestDigest : Type 0 where
  pub value : String

pub data PromptManifestError : Type 0 where
  zero_revision invalid_engine_id invalid_digest : PromptManifestError

pub record PromptManifest : Type 0 where
  pub revision : ℕ
  pub engine : EngineId
  pub system_prompt : ManifestDigest
  pub tool_catalog : ManifestDigest

-- `EngineId::new`
unfoldable pub new_engine_id : String → Result PromptManifestError EngineId
new_engine_id value =
    if is_empty value || not (trim value == value)
    then err invalid_engine_id
    else ok (record { value = value })

-- `is_ascii_digit`, or one of `b'a'..=b'f'`.
abbrev pub is_hex_digit : Char → Bool
is_hex_digit c = leb 48 (code c) && leb (code c) 57 || leb 97 (code c) && leb (code c) 102

unfoldable pub char_count : String → ℕ
char_count [] = 0
char_count (c ∷ s) = suc (char_count s)

unfoldable pub all_hex : String → Bool
all_hex [] = true
all_hex (c ∷ s) = is_hex_digit c && all_hex s

-- `ManifestDigest::new`
unfoldable pub new_digest : String → Result PromptManifestError ManifestDigest
new_digest value =
    if not (char_count value == 64) || not (all_hex value)
    then err invalid_digest
    else ok (record { value = value })

-- `PromptManifest::new`
unfoldable pub new_manifest :
    ℕ → EngineId → ManifestDigest → ManifestDigest → Result PromptManifestError PromptManifest
new_manifest revision engine system_prompt tool_catalog =
    if revision == 0
    then err zero_revision
    else ok (record {
      revision = revision;
      engine = engine;
      system_prompt = system_prompt;
      tool_catalog = tool_catalog;
    })
