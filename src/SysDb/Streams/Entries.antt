-- ===== src/SysDb/Streams/Entries.antt =====
-- A stream is the list of the values written to it: offsets count from zero without a gap, a write
-- adds one at the end, and a read finds the value at its offset.
use dbos_transact_ts.Common.{
  ℕ, zero, suc, ◌+◌, ◌==◌, String, Bool, ◌&&◌, none, some, List, [], ◌∷◌, ◌++◌, ◌≡◌, refl, ◌∙◌,
  arith, first, select, length, get_elem?,
}
use dbos_transact_ts.SysDb.Schema.{StreamEntry}
use dbos_transact_ts.SysDb.Streams.{is_stream, find_entry, max_offset, next_offset}

-- The entries of one stream, in the order they were written.
unfoldable pub entries : String → String → List StreamEntry → List StreamEntry
entries id key t = select (is_stream id key) t

-- The offsets count up from `n`.
abbrev pub CountsFrom : ℕ → List StreamEntry → Type 0
CountsFrom n [] = Unit {0}
CountsFrom n (s ∷ l) = (s.offset ≡ n) × CountsFrom (n + 1) l

-- Every stream of the table counts from zero.
abbrev pub IsContiguous : List StreamEntry → Type 0
IsContiguous t = (id key : String) → CountsFrom 0 (entries id key t)

max_offset-CountsFrom :
    (n : ℕ) (s : StreamEntry) (l : List StreamEntry)
    → CountsFrom n (s ∷ l)
    → max_offset (s ∷ l) ≡ some (n + length l)
unfolding max_offset
max_offset-CountsFrom n s [] h = ground (arith, h)
max_offset-CountsFrom n s (s' ∷ l) h = ground (arith, h.0, max_offset-CountsFrom (n + 1) s' l h.1)

first-CountsFrom :
    (n i k : ℕ) (l : List StreamEntry)
    → n + i ≡ k
    → CountsFrom n l
    → first (λ s. s.offset == k) l ≡ get_elem? l i
first-CountsFrom n i k [] e h = refl
first-CountsFrom n zero k (s ∷ l) e h = ground (arith, h.0)
first-CountsFrom n (suc i) k (s ∷ l) e h =
    ground (arith, h.0, first-CountsFrom (n + 1) i k l (omega arith) h.1)

pub CountsFrom-append :
    (n : ℕ) (l : List StreamEntry) (s : StreamEntry)
    → CountsFrom n l
    → s.offset ≡ n + length l
    → CountsFrom n (l ++ s ∷ [])
CountsFrom-append n [] s h e = (ground (arith, e), tt)
CountsFrom-append n (x ∷ l) s h e = (h.0, CountsFrom-append (n + 1) l s h.1 (ground (arith, e)))

first-select {ℓ} :
    {A : Type ℓ} (p q : A → Bool) (t : List A) → first (λ r. p r && q r) t ≡ first q (select p t)
first-select p q [] = refl
first-select p q (r ∷ t) = ground (arith, first-select p q t)

module _ (id key : String) (t : List StreamEntry) where
  pub next_offset_lem :
      CountsFrom 0 (entries id key t) → next_offset id key t ≡ length (entries id key t)
  unfolding next_offset entries max_offset
  next_offset_lem h = of_entries (select (is_stream id key) t) h
    where
      of_entries :
          (l : List StreamEntry)
          → CountsFrom 0 l
          → elim (max_offset l) [ none ↦ 0 | some m ↦ m + 1 ] ≡ length l
      of_entries [] k = refl
      of_entries (s ∷ l) k = ground (arith, max_offset-CountsFrom 0 s l k)

  pub find_entry-get_elem? :
      CountsFrom 0 (entries id key t)
      → (i : ℕ) → find_entry id key i t ≡ get_elem? (entries id key t) i
  unfolding find_entry entries
  find_entry-get_elem? h i =
      first-select (is_stream id key) (λ s. s.offset == i) t
      ∙ first-CountsFrom 0 i i _ (omega arith) h

pub get_elem?-length {ℓ} : {A : Type ℓ} (l : List A) → get_elem? l (length l) ≡ none
get_elem?-length [] = refl
get_elem?-length (x ∷ l) = get_elem?-length l
