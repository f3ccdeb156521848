-- ===== src/JobBuilder/Names.antt =====
-- The names of the runner Jobs.
use Prim.Native.String.{len, slice}
use text.Mathlib.Text.{get?}
use text.Mathlib.TextPositions.{len-append, boundary-zero}
use ch_chaos.Base.{
  ℕ, ◌+◌, ◌-◌, ◌≤◌, ◌<◌, ◌≡◌, ◌≢◌, ◌⊎◌, ◌∙◌, sym, leb, Bool-cases, str_eq, str_eq_iff, str_eq_refl,
  String, some, arith, min, format, [], ◌∷◌, Option-cases, inl, inr,
}
use ch_chaos.JobBuilder.{make_job_name}

-- A slice from the start that does not panic has the length that was asked for.
get?-len : (s : String) (b : ℕ) {t : String} → get? s 0 b ≡ some t → len t ≡ b
get?-len s b h = ground arith

len-name : (p n : String) → len (format ("chaos-runner-" ∷ p ∷ "-" ∷ n ∷ [])) ≡ 14 + len p + len n
len-name p n =
    omega (arith, len-append "chaos-runner-" _, len-append p _, len-append "-" _, len-append n "")

-- The name of a runner Job, where there is one, has at most 63 bytes, which is the longest that
-- Kubernetes takes for a label.
pub len-make_job_name :
    (experiment_id node_name : String) {name : String}
    → make_job_name experiment_id node_name ≡ some name
    → len name ≤ 63
unfolding make_job_name
len-make_job_name experiment_id node_name {name} h =
    elim (Option-cases (get? experiment_id 0 (min 8 (len experiment_id)))) [
      | inl e ↦ ground (arith, h, e)
      | inr (p, e) ↦
          elim (Option-cases (get? node_name 0 (min (63 - 13 - 1 - len p) (len node_name)))) [
            | inl e' ↦ ground (arith, h, e, e')
            | inr (n, e') ↦
                let name_is : some (format ("chaos-runner-" ∷ p ∷ "-" ∷ n ∷ [])) ≡ some name =
                  ground (arith, h, e, e') in
                let same : len name ≡ len (format ("chaos-runner-" ∷ p ∷ "-" ∷ n ∷ [])) = cc in
                omega
                  (arith, same, len-name p n, get?-len experiment_id _ e, get?-len node_name _ e')
          ]
    ]

get?-agree : (s t : String) (b : ℕ) → slice s 0 b ≡ slice t 0 b → get? s 0 b ≡ get? t 0 b
get?-agree s t b h = ground (arith, boundary-zero s, boundary-zero t)

short-agree :
    (p first second : String)
    → len p ≡ 8
    → 41 ≤ len first
    → 41 ≤ len second
    → slice first 0 41 ≡ slice second 0 41
    → get? first 0 (min (63 - 13 - 1 - len p) (len first))
      ≡ get? second 0 (min (63 - 13 - 1 - len p) (len second))
short-agree p first second eight f s same =
    let a : min (63 - 13 - 1 - len p) (len first) ≡ 41 = omega arith in
    let b : min (63 - 13 - 1 - len p) (len second) ≡ 41 = omega arith in
    rw (a, b) (get?-agree first second 41 same)

-- Two nodes whose names agree in their first 41 bytes get Jobs of one name, for an experiment id of at
-- least 8 bytes.
pub make_job_name-collides :
    (experiment_id first second : String)
    → 8 ≤ len experiment_id
    → 41 ≤ len first
    → 41 ≤ len second
    → slice first 0 41 ≡ slice second 0 41
    → make_job_name experiment_id first ≡ make_job_name experiment_id second
unfolding make_job_name
make_job_name-collides experiment_id first second long f s same =
    elim (Option-cases (get? experiment_id 0 (min 8 (len experiment_id)))) [
      | inl e ↦ ground (arith, e)
      | inr (p, e) ↦
          let eight : len p ≡ 8 = omega (arith, get?-len experiment_id _ e) in
          ground (arith, e, short-agree p first second eight f s same)
    ]

le_or_lt : (m n : ℕ) → (m ≤ n) ⊎ (n < m)
le_or_lt m n = elim (Bool-cases (leb m n)) [
  | inl h ↦ inl (ground arith)
  | inr h ↦ inr (ground arith)
]

-- what can keep two nodes' Jobs apart: a short id or name, or a difference in the first 41 bytes
abbrev pub IsApart : String → String → String → Type 0
IsApart experiment_id first second =
    (len experiment_id < 8)
    ⊎ (len first < 41)
    ⊎ (len second < 41)
    ⊎ (slice first 0 41 ≢ slice second 0 41)

-- The name of a runner Job, where there is one, has at most 63 bytes, which is the longest that
-- Kubernetes takes for a label; it is also that of any other node whose name agrees in the first 41
-- bytes, unless one of the names has fewer, or the experiment's id fewer than 8.
pub make_job_name_lem :
    (experiment_id first second : String) {name : String}
    → make_job_name experiment_id first ≡ some name
    → (len name ≤ 63)
      × (IsApart experiment_id first second ⊎ (make_job_name experiment_id second ≡ some name))
make_job_name_lem experiment_id first second h = (
  len-make_job_name experiment_id first h,
  elim (le_or_lt 8 (len experiment_id)) [
    | inr short ↦ inl (inl short)
    | inl long ↦ elim (le_or_lt 41 (len first)) [
      | inr short ↦ inl (inr (inl short))
      | inl f ↦ elim (le_or_lt 41 (len second)) [
        | inr short ↦ inl (inr (inr (inl short)))
        | inl s ↦ elim (Bool-cases (str_eq (slice first 0 41) (slice second 0 41))) [
          | inl same ↦ inr (
              sym (make_job_name-collides experiment_id first second long f s (str_eq_iff _ _ same))
              ∙ h)
          | inr differ ↦
              inl (inr (inr (inr (λ e. cc (differ, e, str_eq_refl (slice second 0 41))))))
        ]
      ]
    ]
  ],
)
