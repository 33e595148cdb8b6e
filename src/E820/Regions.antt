-- ===== src/E820/Regions.antt =====
-- What a positive answer of `e820_is_region_usable` says of the true, unwrapped addresses, and how
-- many entries the map holds.
use agentic_os_harness.Common.{
  ℕ, zero, suc, ◌+◌, ◌≤◌, ◌<◌, ◌≡◌, refl, ◌↔◌, ◌⊎◌, inl, inr, Bool, true, false, ◌||◌, List, [],
  ◌∷◌, arith, u64_mod, length, All, ◌==◌, min, if◌then◌else◌,
}
use agentic_os_harness.E820.{
  Entry, Handoff, MemoryMap, e820_init, copy_entries, e820_magic, e820_usable, entry_covers,
  any_covers, e820_is_region_usable,
}

-- The region [base, base + length) lies in a usable entry, and neither end passes 2^64.
pub record Covers (base len : ℕ) (e : Entry) : Type 0 where
  pub usable : e.type ≡ e820_usable
  pub low : e.base ≤ base
  pub high : base + len ≤ e.base + e.length
  pub region_fits : base + len < u64_mod
  pub entry_fits : e.base + e.length < u64_mod

abbrev pub SomeCovers : ℕ → ℕ → List Entry → Type 0
SomeCovers base len [] = ⊥
SomeCovers base len (e ∷ es) = Covers base len e ⊎ SomeCovers base len es

-- The fields are 64-bit words.
pub record IsWord (e : Entry) : Type 0 where
  pub base_word : e.base < u64_mod
  pub length_word : e.length < u64_mod

entry_covers-Covers :
    (base len : ℕ) (e : Entry)
    → base < u64_mod
    → len < u64_mod
    → IsWord e
    → (entry_covers base len e ≡ true) ↔ Covers base len e
unfolding entry_covers
entry_covers-Covers base len e hb hl w = (λ h. ground arith, λ c. ground arith)

or_iff : {P Q : Type 0} (a b : Bool) → (a ≡ true) ↔ P → (b ≡ true) ↔ Q → ((a || b) ≡ true) ↔ (P ⊎ Q)
or_iff true b p q = (λ h. inl (p.0 refl), λ h. refl)
or_iff false true p q = (λ h. inr (q.0 refl), λ h. refl)
or_iff false false p q = (λ h. absurd (cc), λ d. elim d [ inl x ↦ p.1 x | inr y ↦ q.1 y ])

any_covers-SomeCovers :
    (base len : ℕ) (es : List Entry)
    → base < u64_mod
    → len < u64_mod
    → All IsWord es
    → (any_covers base len es ≡ true) ↔ SomeCovers base len es
unfolding any_covers
any_covers-SomeCovers base len [] hb hl w = (λ h. ground arith, λ c. absurd c)
any_covers-SomeCovers base len (e ∷ es) hb hl w =
    or_iff (entry_covers base len e) (any_covers base len es)
      (entry_covers-Covers base len e hb hl w.0) (any_covers-SomeCovers base len es hb hl w.1)

-- For 64-bit words, `e820_is_region_usable` accepts a region exactly when the map was read, the
-- region is not empty, and it lies, with no end wrapped round 2^64, inside one usable entry.
pub is_region_usable-SomeCovers :
    (m : MemoryMap) (base len : ℕ)
    → base < u64_mod
    → len < u64_mod
    → All IsWord m.entries
    → (e820_is_region_usable m base len ≡ true)
      ↔ ((m.initialized ≡ true) × (0 < len) × SomeCovers base len m.entries)
unfolding e820_is_region_usable
is_region_usable-SomeCovers m base len hb hl w = (to, from)
  where
    covered : (any_covers base len m.entries ≡ true) ↔ SomeCovers base len m.entries
    covered = any_covers-SomeCovers base len m.entries hb hl w

    to :
        e820_is_region_usable m base len ≡ true
        → (m.initialized ≡ true) × (0 < len) × SomeCovers base len m.entries
    to h =
        let found : any_covers base len m.entries ≡ true = ground arith in
        (ground arith, ground arith, covered.0 found)

    from :
        (m.initialized ≡ true) × (0 < len) × SomeCovers base len m.entries
        → e820_is_region_usable m base len ≡ true
    from h = let found : any_covers base len m.entries ≡ true = covered.1 h.2 in ground arith

length-copy_entries : (n i : ℕ) (entry_at : ℕ → Entry) → length (copy_entries n i entry_at) ≡ n
unfolding copy_entries
length-copy_entries zero i entry_at = refl
length-copy_entries (suc n) i entry_at = omega (arith, length-copy_entries n (i + 1) entry_at)

-- Whatever the boot loader left in the hand-over area, the map holds at most 32 entries: as many as
-- the header counts, up to 32, if the magic number is there, and none if it is not; it is available
-- exactly if it holds an entry.
pub e820_init_bounded :
    (h : Handoff)
    → let m = e820_init h in
      (length m.entries ≡ (if h.magic == e820_magic then min h.count 32 else 0))
      × (m.initialized ≡ true)
      × ((m.available ≡ true) ↔ (0 < length m.entries))
unfolding e820_init
e820_init_bounded h =
    ground (arith, length-copy_entries 32 0 h.entry_at, length-copy_entries h.count 0 h.entry_at)
