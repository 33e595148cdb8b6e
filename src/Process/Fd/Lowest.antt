-- ===== src/Process/Fd/Lowest.antt =====
-- `process_fd_install_typed` of kernel/process.c: which descriptor it gives.
use agentic_os_harness.Common.{
  ℕ, zero, suc, ◌+◌, ◌-◌, ◌≤◌, ◌<◌, ◌≡◌, refl, ap, ◌∙◌, Bool, true, false, not, ◌||◌, Option, none,
  some, List, arith, leb, ◌==◌, if◌then◌else◌, length, set, get_or-set, Bool-cases, inl, inr, ◌⊎◌,
  if_rule, ℤ, pos, negsuc, is_negative, bit_and, u32_mod,
}
use agentic_os_harness.Process.Types.{Process, ProcessFd, FdKind, fd_none, kind_eq, process_max_fds}
use agentic_os_harness.Process.Fd.{
  closed_fd, fd_at, free_fd, install_at, process_fd_install_typed, process_fd_get,
  process_fd_cloexec,
}

free_fd-first :
    (fds : List ProcessFd) (n i k : ℕ)
    → free_fd fds n i ≡ some k
    → (i ≤ k)
      × (k < i + n)
      × (kind_eq (fd_at fds k).kind fd_none ≡ true)
      × ((j : ℕ) → i ≤ j → j < k → kind_eq (fd_at fds j).kind fd_none ≡ false)
unfolding free_fd
free_fd-first fds zero i k e = absurd (cc)
free_fd-first fds (suc n) i k e = elim (Bool-cases (kind_eq (fd_at fds i).kind fd_none)) [
  | inr busy ↦
      let r = free_fd-first fds n (i + 1) k (rw (busy, free_fd) at e) in
      (
        omega (arith, r.0),
        omega (arith, r.1),
        r.2,
        λ j a b. elim (Bool-cases (i == j)) [
          | inl here ↦ let same : i ≡ j = ground arith in rw (← same) busy
          | inr later ↦ r.3 j (ground arith) b
        ],
      )
  | inl free ↦
      let same : i ≡ k = let t : some i ≡ some k = rw (free, free_fd) at e in cc in
      rw (← same) (omega arith, omega arith, free, λ j a b. absurd (omega arith))
]

free_fd-none :
    (fds : List ProcessFd) (n i : ℕ)
    → free_fd fds n i ≡ none
    → (j : ℕ) → i ≤ j
    → j < i + n
    → kind_eq (fd_at fds j).kind fd_none ≡ false
unfolding free_fd
free_fd-none fds zero i e j a b = absurd (omega arith)
free_fd-none fds (suc n) i e j a b = elim (Bool-cases (kind_eq (fd_at fds i).kind fd_none)) [
  | inr busy ↦ elim (Bool-cases (i == j)) [
    | inl here ↦ let same : i ≡ j = ground arith in rw (← same) busy
    | inr later ↦
        free_fd-none fds n (i + 1) (rw (busy, free_fd) at e) j (ground arith) (omega arith)
  ]
  | inl free ↦ let t : some i ≡ none = rw (free, free_fd) at e in absurd (cc)
]

-- The entry that was installed at the lowest free descriptor.
pub record Placed (p : Process) (kind : FdKind) (handle : ℤ) (flags fd : ℕ) (after : Process)
    : Type 0 where
  pub in_table : fd < process_max_fds
  pub was_free : kind_eq (fd_at p.fds fd).kind fd_none ≡ true
  pub lowest : (j : ℕ) → j < fd → kind_eq (fd_at p.fds j).kind fd_none ≡ false
  pub entry :
      after
      ≡ record p { fds = set p.fds fd (record { kind = kind; handle = handle; flags = flags }) }
  pub found : process_fd_get after (pos fd) ≡ some (kind, handle)

-- An entry that may be installed: of a kind, with a handle, and with no flag but PROCESS_FD_CLOEXEC.
pub record IsEntry (kind : FdKind) (handle : ℤ) (flags : ℕ) : Type 0 where
  pub has_kind : kind_eq kind fd_none ≡ false
  pub has_handle : is_negative handle ≡ false
  pub only_cloexec : bit_and flags (u32_mod - 1 - process_fd_cloexec) ≡ 0

-- What an installation returns: the error EINVAL, the error EMFILE of a full table, or a descriptor.
pub data Installed (p : Process) (kind : FdKind) (handle : ℤ) (flags : ℕ)
    : ℤ × Process → Type 0 where
  invalid :
      (kind_eq kind fd_none ≡ true)
        ⊎ (is_negative handle ≡ true)
        ⊎ ((bit_and flags (u32_mod - 1 - process_fd_cloexec) == 0) ≡ false)
      → Installed p kind handle flags (negsuc 0, p)
  full :
      IsEntry kind handle flags
      → ((j : ℕ) → j < process_max_fds → kind_eq (fd_at p.fds j).kind fd_none ≡ false)
      → Installed p kind handle flags (negsuc 4, p)
  placed :
      (fd : ℕ) (after : Process)
      → IsEntry kind handle flags
      → Placed p kind handle flags fd after
      → Installed p kind handle flags (pos fd, after)

get-installed :
    (p : Process) (entry : ProcessFd) (fd : ℕ)
    → length p.fds ≡ process_max_fds
    → fd < process_max_fds
    → kind_eq entry.kind fd_none ≡ false
    → is_negative entry.handle ≡ false
    → process_fd_get (record p { fds = set p.fds fd entry }) (pos fd)
      ≡ some (entry.kind, entry.handle)
unfolding process_fd_get
get-installed p entry fd l h k n =
    let self : fd_at (set p.fds fd entry) fd ≡ entry =
      ground (arith, get_or-set p.fds fd fd entry closed_fd (omega arith)) in
    let shown : (leb process_max_fds fd || kind_eq entry.kind fd_none || is_negative entry.handle)
        ≡ false =
      ground (arith, k, n) in
    ap
      (λ (x : ProcessFd).
        if leb process_max_fds fd || kind_eq x.kind fd_none || is_negative x.handle
        then none
        else some (x.kind, x.handle))
      self
    ∙ ap (λ b. if b then none else some (entry.kind, entry.handle)) shown

install_at-Installed :
    (p : Process) (o : Option ℕ) (kind : FdKind) (handle : ℤ) (flags : ℕ)
    → length p.fds ≡ process_max_fds
    → IsEntry kind handle flags
    → free_fd p.fds process_max_fds 0 ≡ o
    → Installed p kind handle flags
        (install_at p o (record { kind = kind; handle = handle; flags = flags }))
unfolding install_at
install_at-Installed p none kind handle flags l v e =
    full v (λ j b. free_fd-none p.fds process_max_fds 0 e j (omega arith) b)
install_at-Installed p (some fd) kind handle flags l v e =
    let u = free_fd-first p.fds process_max_fds 0 fd e in
    let entry : ProcessFd = record { kind = kind; handle = handle; flags = flags } in
    placed fd (record p { fds = set p.fds fd entry }) v
      (record {
        in_table = u.1;
        was_free = u.2;
        lowest = λ j b. u.3 j (omega arith) b;
        entry = refl;
        found = get-installed p entry fd l u.1 v.has_kind v.has_handle;
      })

guard-cases : (a b c : Bool) → (a || b || not c) ≡ true → (a ≡ true) ⊎ (b ≡ true) ⊎ (c ≡ false)
guard-cases true b c e = inl refl
guard-cases false true c e = inr (inl refl)
guard-cases false false true e = absurd (cc)
guard-cases false false false e = inr (inr refl)

-- On a descriptor table of 16 entries, `process_fd_install_typed` puts a valid entry at the lowest
-- free descriptor, where `process_fd_get` finds it, and changes no other entry; it answers EMFILE
-- for a valid entry when no descriptor is free, and EINVAL exactly for an invalid entry, and then changes
-- nothing.
pub process_fd_install_typed-Installed :
    (p : Process) (kind : FdKind) (handle : ℤ) (flags : ℕ)
    → length p.fds ≡ process_max_fds
    → Installed p kind handle flags (process_fd_install_typed p kind handle flags)
unfolding process_fd_install_typed
process_fd_install_typed-Installed p kind handle flags l =
    let flag = bit_and flags (u32_mod - 1 - process_fd_cloexec) == 0 in
    if_rule (λ (r : ℤ × Process). Installed p kind handle flags r)
      (kind_eq kind fd_none || is_negative handle || not flag) _ _
      (λ e. invalid (guard-cases (kind_eq kind fd_none) (is_negative handle) flag e))
      (λ e.
        install_at-Installed p (free_fd p.fds process_max_fds 0) kind handle flags l
          (record {
            has_kind = ground arith;
            has_handle = ground arith;
            only_cloexec = ground arith;
          })
          refl)
