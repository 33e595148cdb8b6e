-- ===== src/Scheduler/Queue.antt =====
-- The queue as a list of slots: membership, removal, and no list of distinct slots is longer than the
-- table.
use agentic_os_harness.Common.{
  ℕ, zero, suc, ◌≤◌, ◌<◌, ◌≡◌, ◌≢◌, refl, Bool, false, ◌||◌, List, [], ◌∷◌, ◌++◌, arith, ◌==◌,
  if◌then◌else◌, length, All, Bool-cases, inl, inr,
}

abbrev pub member : ℕ → List ℕ → Bool
member i [] = false
member i (x ∷ q) = x == i || member i q

abbrev pub Distinct : List ℕ → Type 0
Distinct [] = Unit {0}
Distinct (x ∷ q) = (member x q ≡ false) × Distinct q

-- The list without the first `i`.
abbrev pub erase : ℕ → List ℕ → List ℕ
erase i [] = []
erase i (x ∷ q) = if x == i then q else x ∷ erase i q

abbrev pub last_of : ℕ → List ℕ → ℕ
last_of h [] = h
last_of h (x ∷ q) = last_of x q

pub last_of-ne : (h x : ℕ) (q : List ℕ) → member h (x ∷ q) ≡ false → last_of x q ≢ h
last_of-ne h x [] e p = ground arith
last_of-ne h x (y ∷ q) e p = last_of-ne h y q (ground arith) p

pub member-append : (i : ℕ) (q r : List ℕ) → member i (q ++ r) ≡ (member i q || member i r)
member-append i [] r = refl
member-append i (x ∷ q) r = ground (arith, member-append i q r)

pub Distinct-append_one :
    (i : ℕ) (q : List ℕ) → Distinct q → member i q ≡ false → Distinct (q ++ i ∷ [])
Distinct-append_one i [] d e = (refl, tt)
Distinct-append_one i (x ∷ q) d e =
    (ground (arith, member-append x q (i ∷ []), d.0), Distinct-append_one i q d.1 (ground arith))

pub member-erase : (i j : ℕ) (q : List ℕ) → member i q ≡ false → member i (erase j q) ≡ false
member-erase i j [] e = refl
member-erase i j (x ∷ q) e = ground (arith, member-erase i j q)

pub member-erase_self : (i : ℕ) (q : List ℕ) → Distinct q → member i (erase i q) ≡ false
member-erase_self i [] d = refl
member-erase_self i (x ∷ q) d = elim (Bool-cases (x == i)) [
  | inl same ↦ let e : x ≡ i = ground arith in rw same (rw e at d.0)
  | inr other ↦ rw (other, other) (member-erase_self i q d.1)
]

pub member-erase_ne : (i j : ℕ) (q : List ℕ) → i ≢ j → member i (erase j q) ≡ member i q
member-erase_ne i j [] n = refl
member-erase_ne i j (x ∷ q) n = ground (arith, member-erase_ne i j q n)

pub Distinct-erase : (i : ℕ) (q : List ℕ) → Distinct q → Distinct (erase i q)
Distinct-erase i [] d = tt
Distinct-erase i (x ∷ q) d = elim (Bool-cases (x == i)) [
  | inl same ↦ rw same d.1
  | inr other ↦ rw other (member-erase x i q d.0, Distinct-erase i q d.1)
]

pub erase_absent : (i : ℕ) (q : List ℕ) → member i q ≡ false → erase i q ≡ q
erase_absent i [] e = refl
erase_absent i (x ∷ q) e = ground (arith, erase_absent i q)

length-erase : (i : ℕ) (q : List ℕ) → length q ≤ suc (length (erase i q))
length-erase i [] = omega arith
length-erase i (x ∷ q) = ground (arith, length-erase i q)

All-erase :
    (i n : ℕ) (q : List ℕ)
    → All (λ x. x < suc n) q
    → Distinct q
    → i ≡ n
    → All (λ x. x < n) (erase i q)
All-erase i n [] a d e = tt
All-erase i n (x ∷ q) a d e = elim (Bool-cases (x == i)) [
  | inl same ↦ rw same (below q a.1 (rw (← e) (let p : x ≡ i = ground arith in rw p at d.0)))
  | inr other ↦ rw other (ground arith, All-erase i n q a.1 d.1 e)
]
  where
    below : (r : List ℕ) → All (λ x. x < suc n) r → member n r ≡ false → All (λ x. x < n) r
    below [] a e = tt
    below (y ∷ r) a e = (ground arith, below r a.1 (ground arith))

-- The pigeonhole principle.
pub length-Distinct : (n : ℕ) (q : List ℕ) → Distinct q → All (λ x. x < n) q → length q ≤ n
length-Distinct zero [] d a = omega arith
length-Distinct zero (x ∷ q) d a = absurd (omega arith)
length-Distinct (suc n) q d a = omega (
  arith,
  length-erase n q,
  length-Distinct n (erase n q) (Distinct-erase n q d) (All-erase n n q a d refl),
)
