-- ===== src/Tests/Merge.antt =====
-- The merge patch of RFC 7386 on members, as a concrete instance of `IsMergePatch`. A patch is gone
-- through from its end, so that the first member of a name counts.
use ch_chaos.Base.{
  String, ◌≡◌, refl, ◌∙◌, true, false, Bool-cases, inl, inr, Option, none, some, str_eq,
  str_eq_refl, str_eq_iff, if◌then◌else◌,
}
use ch_chaos.Json.{
  Value, Members, null, bool, num, other_num, str, arr, obj, end, member, find_member,
}
use ch_chaos.Json.MergePatch.{IsMergePatch, is_plain}

abbrev remove : String → Members → Members
remove k end = end
remove k (member j v ms) = if str_eq j k then remove k ms else member j v (remove k ms)

-- the members under a name, none where there is no object
abbrev below : Option Value → Members
below (some (obj ms)) = ms
below _ = end

abbrev pub merge : Members → Members → Members
merge t end = t
merge t (member k null p) = remove k (merge t p)
merge t (member k (obj q) p) = member k (obj (merge (below (find_member t k)) q)) (merge t p)
merge t (member k v p) = member k v (merge t p)

abbrev put : String → Option Value → Members → Members
put k none ms = remove k ms
put k (some v) ms = member k v ms

abbrev renewed : Members → String → Value → Option Value
renewed t k null = none
renewed t k (obj q) = some (obj (merge (below (find_member t k)) q))
renewed t k v = some v

merge-member :
    (t : Members) (k : String) (v : Value) (p : Members)
    → merge t (member k v p) ≡ put k (renewed t k v) (merge t p)
merge-member t k null p = refl
merge-member t k (obj q) p = refl
merge-member t k (bool b) p = refl
merge-member t k (num n) p = refl
merge-member t k (other_num s) p = refl
merge-member t k (str s) p = refl
merge-member t k (arr l) p = refl

find-remove : (k : String) (ms : Members) → find_member (remove k ms) k ≡ none
find-remove k end = refl
find-remove k (member j v ms) = elim (Bool-cases (str_eq j k)) [
  | inl same ↦ rw same (find-remove k ms)
  | inr other ↦ rw other (rw other (find-remove k ms))
]

find-remove_other :
    (k j : String) (ms : Members)
    → str_eq k j ≡ false
    → find_member (remove k ms) j ≡ find_member ms j
find-remove_other k j end h = refl
find-remove_other k j (member i v ms) h = elim (Bool-cases (str_eq i k)) [
  | inl same ↦
      let e : i ≡ k = str_eq_iff i k same in rw same (rw e (rw h (find-remove_other k j ms h)))
  | inr other ↦ rw other (elim (Bool-cases (str_eq i j)) [
    | inl here ↦ rw here refl
    | inr there ↦ rw there (find-remove_other k j ms h)
  ])
]

find-put : (k : String) (o : Option Value) (ms : Members) → find_member (put k o ms) k ≡ o
find-put k none ms = find-remove k ms
find-put k (some v) ms = rw (str_eq_refl k) refl

find-put_other :
    (k j : String) (o : Option Value) (ms : Members)
    → str_eq k j ≡ false
    → find_member (put k o ms) j ≡ find_member ms j
find-put_other k j none ms h = find-remove_other k j ms h
find-put_other k j (some v) ms h = rw h refl

abbrev outcome : Members → String → Option Value → Option Value
outcome t k none = find_member t k
outcome t k (some v) = renewed t k v

find-merge :
    (t p : Members) (k : String) → find_member (merge t p) k ≡ outcome t k (find_member p k)
find-merge t end k = refl
find-merge t (member j v p) k = rw (merge-member t j v p) (elim (Bool-cases (str_eq j k)) [
  | inl same ↦
      let e : j ≡ k = str_eq_iff j k same in rw same (rw e (find-put k (renewed t k v) (merge t p)))
  | inr other ↦ rw other (find-put_other j k (renewed t j v) (merge t p) other ∙ find-merge t p k)
])

plain : (t : Members) (k : String) (v : Value) → is_plain v ≡ true → renewed t k v ≡ some v
plain t k null h = cc h
plain t k (obj q) h = cc h
plain t k (bool b) h = refl
plain t k (num n) h = refl
plain t k (other_num s) h = refl
plain t k (str s) h = refl
plain t k (arr l) h = refl

pub merge-IsMergePatch : IsMergePatch merge
merge-IsMergePatch = record {
  kept = λ t p k h. rw (find-merge t p k) (rw h refl);
  removed = λ t p k h. rw (find-merge t p k) (rw h refl);
  replaced = λ t p k v h q. rw (find-merge t p k) (rw h (plain t k v q));
  nested = λ t p k s q h g. rw (find-merge t p k) (rw h (rw g refl));
  fresh = λ t p k q h g. rw (find-merge t p k) (rw h (rw g refl));
}
