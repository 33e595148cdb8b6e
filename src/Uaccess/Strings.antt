-- ===== src/Uaccess/Strings.antt =====
-- The strings that `copy_string_from_user` of kernel/uaccess.c copies.
use agentic_os_harness.Common.{
  ℕ, zero, suc, ◌≤◌, ◌≡◌, ◌≢◌, refl, Bool, true, false, not, ◌||◌, Option, none, some, List, [],
  ◌∷◌, arith, ◌==◌, add32, length, Option-cases, inl, inr, if_rule,
}
use agentic_os_harness.Process.Types.{Process}
use agentic_os_harness.Uaccess.{
  UaccessResult, success, copy_from_user, string_from, copy_string_from_user,
}
use agentic_os_harness.Uaccess.{string_result}

-- `chars` are the characters of user memory from `source` on up to the first 0 and with it.
abbrev pub IsString : (ℕ → ℕ) → ℕ → List ℕ → Type 0
IsString mem source [] = ⊥
IsString mem source (c ∷ []) = (mem source ≡ 0) × (c ≡ 0)
IsString mem source (c ∷ d ∷ cs) =
    (mem source ≡ c) × (c ≢ 0) × IsString mem (add32 source 1) (d ∷ cs)

IsString-cons :
    (mem : ℕ → ℕ) (source : ℕ) (cs : List ℕ)
    → mem source ≢ 0
    → IsString mem (add32 source 1) cs
    → IsString mem source (mem source ∷ cs)
IsString-cons mem source [] n s = absurd s
IsString-cons mem source (c ∷ cs) n s = (refl, n, s)

module _ (flags : ℕ → ℕ → ℕ) (procs : List Process) (directory : ℕ) (mem : ℕ → ℕ) where
  abbrev Found : ℕ → ℕ → Option Bool × List ℕ → Type 0
  Found n source r = r.0 ≡ some true → IsString mem source r.1 × (length r.1 ≤ n)

  string_from-Found :
      (n source : ℕ) → Found n source (string_from flags procs directory mem n source)
  unfolding string_from
  string_from-Found zero source = λ e. absurd (cc)
  string_from-Found (suc n) source =
      elim (Option-cases (copy_from_user flags procs directory mem true source 1)) [
        | inl fault ↦ rw (fault, string_from) (λ e. absurd (cc))
        | inr read ↦
            rw (read.1, string_from)
              (if_rule (λ (r : Option Bool × List ℕ). Found (suc n) source r) (mem source == 0) _ _
                (λ z e. ((ground arith, refl), omega arith))
                (λ z e.
                  let rest = string_from-Found n (add32 source 1) e in
                  (IsString-cons mem source _ (λ x. ground arith) rest.0, omega (arith, rest.1))))
      ]

  string_result-IsString :
      (n source : ℕ) (r : Option Bool × List ℕ)
      → Found n source r
      → (string_result n r).0 ≡ success
      → IsString mem source (string_result n r).1 × (length (string_result n r).1 ≤ n)
  unfolding string_result
  string_result-IsString n source (none, chars) f e = absurd (cc)
  string_result-IsString n source (some true, chars) f e = f refl
  string_result-IsString n source (some false, chars) f e = absurd (cc)

  -- Where `copy_string_from_user` succeeds, it has copied the characters of user memory up to the first
  -- 0 and with it, which are no more than `max_size`.
  pub copy_string_from_user-IsString :
      (dest : Bool) (source max_size : ℕ)
      → (copy_string_from_user flags procs directory mem dest source max_size).0 ≡ success
      → IsString mem source (copy_string_from_user flags procs directory mem dest source max_size).1
        × (length (copy_string_from_user flags procs directory mem dest source max_size).1
            ≤ max_size)
  unfolding copy_string_from_user
  copy_string_from_user-IsString dest source max_size =
      if_rule
        (λ (r : UaccessResult × List ℕ).
          r.0 ≡ success → IsString mem source r.1 × (length r.1 ≤ max_size))
        (not dest || max_size == 0) _ _ (λ f e. absurd (cc))
        (λ f.
          string_result-IsString max_size source
            (string_from flags procs directory mem max_size source)
            (string_from-Found max_size source))
