-- ===== src/Json/MergePatch.antt =====
-- The JSON merge patch of the API server (RFC 7386), which `Patch::Merge` of the crate `kube` asks for:
-- a parameter, with what the RFC says of each member of the result.
use ch_chaos.Base.{String, Bool, true, false, ◌≡◌, none, some}
use ch_chaos.Json.{Value, Members, null, obj, end, find_member}

-- neither `null` nor an object
abbrev pub is_plain : Value → Bool
is_plain null = false
is_plain (obj ms) = false
is_plain _ = true

pub record IsMergePatch (merge : Members → Members → Members) : Type 0 where
  pub kept :
      (t p : Members) (k : String)
      → find_member p k ≡ none
      → find_member (merge t p) k ≡ find_member t k
  pub removed :
      (t p : Members) (k : String) → find_member p k ≡ some null → find_member (merge t p) k ≡ none
  pub replaced :
      (t p : Members) (k : String) (v : Value)
      → find_member p k ≡ some v
      → is_plain v ≡ true
      → find_member (merge t p) k ≡ some v
  pub nested :
      (t p : Members) (k : String) (s q : Members)
      → find_member p k ≡ some (obj q)
      → find_member t k ≡ some (obj s)
      → find_member (merge t p) k ≡ some (obj (merge s q))
  pub fresh :
      (t p : Members) (k : String) (q : Members)
      → find_member p k ≡ some (obj q)
      → find_member t k ≡ none
      → find_member (merge t p) k ≡ some (obj (merge end q))
