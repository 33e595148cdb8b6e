-- ===== src/Strings/Compare.antt =====
-- The comparing functions of kernel/string.c: they end, and 0 is equality.
use agentic_os_harness.Common.{
  ℕ, zero, suc, ◌+◌, ◌<◌, ◌≡◌, ◌≢◌, ap, ◌∙◌, true, false, some, arith, ◌==◌,
}
use agentic_os_harness.Strings.{strlen, length_from}
use agentic_os_harness.Strings.{memcmp, strcmp, difference}
use agentic_os_harness.Common.{◌↔◌, ℤ, pos, negsuc, Bool-cases, not, ◌&&◌, inl, inr, leb, ◌≢◌}
use agentic_os_harness.Common.{◌-◌, Option, refl, some}

-- The string at `s` has `k` characters: the first 0 is behind them.
pub record IsString (mem : ℕ → ℕ) (s k : ℕ) : Type 0 where
  pub ends : mem (s + k) ≡ 0
  pub inside : (i : ℕ) → i < k → mem (s + i) ≢ 0

-- The `n` bytes at `a` and at `b` are the same.
abbrev pub SameBytes : (ℕ → ℕ) → ℕ → ℕ → ℕ → Type 0
SameBytes mem a b n = (i : ℕ) → i < n → mem (a + i) ≡ mem (b + i)

IsString-rest : (mem : ℕ → ℕ) (s k : ℕ) → IsString mem s (suc k) → IsString mem (s + 1) k
IsString-rest mem s k h = record {
  ends = ap mem (omega arith) ∙ h.ends;
  inside = λ i b e. h.inside (suc i) (omega arith) (ap mem (omega arith) ∙ e);
}

length_from-IsString :
    (k fuel : ℕ) (mem : ℕ → ℕ) (s len : ℕ)
    → IsString mem s k
    → k < fuel
    → length_from fuel mem s len ≡ some (len + k)
unfolding length_from
length_from-IsString k zero mem s len h enough = absurd (omega arith)
length_from-IsString zero (suc fuel) mem s len h enough =
    let here : (mem s == 0) ≡ true =
      ground (arith, ap mem {x = s} {y = s + 0} (omega arith), h.ends) in
    rw here (ap some (omega arith))
length_from-IsString (suc k) (suc fuel) mem s len h enough =
    let here : (mem s == 0) ≡ false =
      ground (arith, ap mem {x = s} {y = s + 0} (omega arith), h.inside 0 (omega arith)) in
    rw here (
      length_from-IsString k fuel mem (s + 1) (len + 1) (IsString-rest mem s k h) (omega arith)
      ∙ ap some (omega arith))

-- On a string of `k` characters `strlen` ends within `k + 1` rounds and returns `k`.
pub strlen-IsString :
    (fuel : ℕ) (mem : ℕ → ℕ) (s k : ℕ) → IsString mem s k → k < fuel → strlen fuel mem s ≡ some k
unfolding strlen
strlen-IsString fuel mem s k h enough =
    length_from-IsString k fuel mem s 0 h enough ∙ ap some (omega arith)

difference-zero : (a b : ℕ) → (difference a b ≡ pos 0) ↔ (a ≡ b)
difference-zero a b = elim (Bool-cases (leb b a)) [
  | inl above ↦ rw above (
    (λ e. let d : a - b ≡ 0 = ap size e in ground (arith, above, d)),
    (λ e. ap pos (omega (arith, e))),
  )
  | inr below ↦ rw below ((λ e. absurd (sign e)), (λ e. absurd (ground (arith, below, e))))
]
  where
    size : ℤ → ℕ
    size (pos n) = n
    size (negsuc n) = n

    sign : {n m : ℕ} → negsuc n ≡ pos m → ⊥
    sign e = absurd (cc)

SameBytes-suc :
    (mem : ℕ → ℕ) (a b n : ℕ)
    → mem a ≡ mem b
    → SameBytes mem (a + 1) (b + 1) n
    → SameBytes mem a b (suc n)
SameBytes-suc mem a b n e h zero l = ap mem (omega arith) ∙ e ∙ ap mem (omega arith)
SameBytes-suc mem a b n e h (suc i) l =
    ap mem (omega arith) ∙ h i (omega arith) ∙ ap mem (omega arith)

SameBytes-rest :
    (mem : ℕ → ℕ) (a b n : ℕ)
    → SameBytes mem a b (suc n)
    → (mem a ≡ mem b) × SameBytes mem (a + 1) (b + 1) n
SameBytes-rest mem a b n h = (
  ap mem (omega arith) ∙ h 0 (omega arith) ∙ ap mem (omega arith),
  λ i l. ap mem (omega arith) ∙ h (suc i) (omega arith) ∙ ap mem (omega arith),
)

-- A comparison that ends, and returns 0 exactly if the first `n` bytes are the same.
pub record Compares (mem : ℕ → ℕ) (s1 s2 n : ℕ) (o : Option ℤ) : Type 0 where
  pub result : ℤ
  pub returns : o ≡ some result
  pub equal : (result ≡ pos 0) ↔ SameBytes mem s1 s2 n

-- On a string of `k` characters `strcmp` ends within `k + 1` rounds, and returns 0 exactly if the other
-- string has the same characters and the same end.
pub strcmp-Compares :
    (fuel : ℕ) (mem : ℕ → ℕ) (s1 s2 k : ℕ)
    → IsString mem s1 k
    → k < fuel
    → Compares mem s1 s2 (suc k) (strcmp fuel mem s1 s2)
unfolding strcmp
strcmp-Compares zero mem s1 s2 k h enough = absurd (omega arith)
strcmp-Compares (suc fuel) mem s1 s2 zero h enough =
    let end : mem s1 ≡ 0 = ap mem (omega arith) ∙ h.ends in
    let stop : (not (mem s1 == 0) && mem s1 == mem s2) ≡ false = ground (arith, end) in
    let d = difference-zero (mem s1) (mem s2) in
    rw stop (record {
      result = difference (mem s1) (mem s2);
      returns = refl;
      equal = (
        λ e. SameBytes-suc mem s1 s2 0 (d.0 e) (λ i l. absurd (omega arith)),
        λ same. d.1 (SameBytes-rest mem s1 s2 0 same).0,
      );
    })
strcmp-Compares (suc fuel) mem s1 s2 (suc k) h enough =
    let t = strcmp-Compares fuel mem (s1 + 1) (s2 + 1) k (IsString-rest mem s1 k h) (omega arith) in
    let some_char : mem s1 ≢ 0 = λ e. h.inside 0 (omega arith) (ap mem (omega arith) ∙ e) in
    let d = difference-zero (mem s1) (mem s2) in
    elim (Bool-cases (mem s1 == mem s2)) [
      | inl same_char ↦
          let char_eq : mem s1 ≡ mem s2 = ground arith in
          let go : (not (mem s1 == 0) && mem s1 == mem s2) ≡ true =
            ground (arith, some_char, same_char) in
          rw go (record {
            result = t.result;
            returns = t.returns;
            equal = (
              λ e. SameBytes-suc mem s1 s2 (suc k) char_eq (t.equal.0 e),
              λ same. t.equal.1 (SameBytes-rest mem s1 s2 (suc k) same).1,
            );
          })
      | inr other_char ↦
          let stop : (not (mem s1 == 0) && mem s1 == mem s2) ≡ false = ground (arith, other_char) in
          rw stop (record {
            result = difference (mem s1) (mem s2);
            returns = refl;
            equal = (
              λ e. absurd (ground (arith, d.0 e, other_char)),
              λ same. d.1 (SameBytes-rest mem s1 s2 (suc k) same).0,
            );
          })
    ]

-- `memcmp` returns 0 exactly if the blocks are the same.
pub memcmp-SameBytes :
    (n : ℕ) (mem : ℕ → ℕ) (s1 s2 : ℕ) → (memcmp mem s1 s2 n ≡ pos 0) ↔ SameBytes mem s1 s2 n
unfolding memcmp
memcmp-SameBytes zero mem s1 s2 = ((λ e i l. absurd (omega arith)), (λ h. refl))
memcmp-SameBytes (suc n) mem s1 s2 =
    let d = difference-zero (mem s1) (mem s2) in
    let t = memcmp-SameBytes n mem (s1 + 1) (s2 + 1) in
    elim (Bool-cases (mem s1 == mem s2)) [
      | inl same_byte ↦ rw same_byte (
        (λ e. SameBytes-suc mem s1 s2 n (ground arith) (t.0 e)),
        (λ h. t.1 (SameBytes-rest mem s1 s2 n h).1),
      )
      | inr other_byte ↦ rw other_byte (
        (λ e. absurd (ground (arith, d.0 e, other_byte))),
        (λ h. d.1 (SameBytes-rest mem s1 s2 n h).0),
      )
    ]
