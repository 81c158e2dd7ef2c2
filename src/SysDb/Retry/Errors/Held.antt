-- ===== src/SysDb/Retry/Errors/Held.antt =====
-- The walk of `unwrapErrors` passes every value that an error holds, in however many steps.
use mathlib.Core.Option
use mathlib.Core.Path.{subst}
use dbos_transact_ts.Common.{
  ℕ, zero, suc, true, false, Option, none, some, List, [], ◌∷◌, ◌++◌, ◌≡◌, refl, arith, ap, ◌==◌,
  ==_iff, Bool-cases, inl, inr, ◌⊎◌,
}
use dbos_transact_ts.SysDb.Retry.Errors.{
  Value, object, primitive, nothing, ErrorObject, held_at, is_seen, unwrap_errors,
}

abbrev pub In : Value → List Value → Type 0
In v [] = ⊥
In v (x ∷ xs) = (v ≡ x) ⊎ In v xs

In-append_left : (v : Value) (xs ys : List Value) → In v xs → In v (xs ++ ys)
In-append_left v [] ys m = absurd m
In-append_left v (x ∷ xs) ys (inl e) = inl e
In-append_left v (x ∷ xs) ys (inr m) = inr (In-append_left v xs ys m)

In-append_right : (v : Value) (xs ys : List Value) → In v ys → In v (xs ++ ys)
In-append_right v [] ys m = m
In-append_right v (x ∷ xs) ys m = inr (In-append_right v xs ys m)

abbrev pub WasSeen : Value → List ℕ → Type 0
WasSeen (object n) seen = is_seen n seen ≡ true
WasSeen (primitive s) seen = ⊥
WasSeen nothing seen = ⊥

-- A value that the walk yields, or that it had seen before.
abbrev pub Covered : Value → List Value → List ℕ → Type 0
Covered v ys seen = In v ys ⊎ WasSeen v seen

Covered-cons :
    (v x : Value) (ys : List Value) (seen : List ℕ) → Covered v ys seen → Covered v (x ∷ ys) seen
Covered-cons v x ys seen (inl m) = inl (inr m)
Covered-cons v x ys seen (inr w) = inr w

Covered-unseen :
    (v : Value) (n : ℕ) (ys : List Value) (seen : List ℕ)
    → Covered v ys (n ∷ seen)
    → Covered v (object n ∷ ys) seen
Covered-unseen v n ys seen (inl m) = inl (inr m)
Covered-unseen (primitive s) n ys seen (inr w) = absurd w
Covered-unseen nothing n ys seen (inr w) = absurd w
Covered-unseen (object m) n ys seen (inr w) = elim (Bool-cases (m == n)) [
  | inl e ↦ inl (inl (ap object ((==_iff m n).0 e)))
  | inr e ↦ inr (ground (arith, e, w))
]

pub map-some :
    (x : Value) (r : Option (List Value)) (ys : List Value)
    → Option.map (λ zs. x ∷ zs) r ≡ some ys
    → (zs : List Value) × (r ≡ some zs) × (ys ≡ x ∷ zs)
map-some x none ys h = cc
map-some x (some zs) ys h = (zs, refl, cc)

unempty : (v : Value) (ys : List Value) → ys ≡ [] → In v ys → ⊥
unempty v [] e k = k
unempty v (y ∷ ys) e k = cc

In-tail : (v x : Value) (ys zs : List Value) → ys ≡ x ∷ zs → (v ≡ x → ⊥) → In v ys → In v zs
In-tail v x ys zs made apart k = elim (subst (λ (l : List Value). In v l) made k) [
  | inl e ↦ absurd (apart e)
  | inr m ↦ m
]

module _ (store : List ErrorObject) where
  pub unwrap_object :
      (fuel n : ℕ) (queue : List Value) (seen : List ℕ) (ys : List Value)
      → is_seen n seen ≡ false
      → unwrap_errors (suc fuel) store (object n ∷ queue) seen ≡ some ys
      → (zs : List Value) × (unwrap_errors fuel store (queue ++ held_at store n) (n ∷ seen)
          ≡ some zs)
        × (ys ≡ object n ∷ zs)
  unfolding unwrap_errors
  unwrap_object fuel n queue seen ys new h = map-some (object n) _ ys (ground (arith, new, h))

  pub unwrap_seen :
      (fuel n : ℕ) (queue : List Value) (seen : List ℕ) (ys : List Value)
      → is_seen n seen ≡ true
      → unwrap_errors (suc fuel) store (object n ∷ queue) seen ≡ some ys
      → unwrap_errors fuel store queue seen ≡ some ys
  unfolding unwrap_errors
  unwrap_seen fuel n queue seen ys old h = ground (arith, old, h)

  pub queue-Covered :
      (fuel : ℕ) (queue : List Value) (seen : List ℕ) (ys : List Value)
      → unwrap_errors fuel store queue seen ≡ some ys
      → (v : Value) → In v queue
      → Covered v ys seen
  unfolding unwrap_errors
  queue-Covered fuel [] seen ys h v m = absurd m
  queue-Covered zero (x ∷ queue) seen ys h v m = cc
  queue-Covered (suc fuel) (primitive s ∷ queue) seen ys h v m =
      let (zs, rest, made) = map-some (primitive s) _ ys h in
      rw made (elim m [
        | inl e ↦ inl (inl e)
        | inr later ↦
            Covered-cons v (primitive s) zs seen (queue-Covered fuel queue seen zs rest v later)
      ])
  queue-Covered (suc fuel) (nothing ∷ queue) seen ys h v m =
      let (zs, rest, made) = map-some nothing _ ys h in
      rw made (elim m [
        | inl e ↦ inl (inl e)
        | inr later ↦ Covered-cons v nothing zs seen (queue-Covered fuel queue seen zs rest v later)
      ])
  queue-Covered (suc fuel) (object n ∷ queue) seen ys h v m = elim (Bool-cases (is_seen n seen)) [
    | inl old ↦ elim m [
      | inl e ↦ rw e (inr old)
      | inr later ↦
          queue-Covered fuel queue seen ys (unwrap_seen fuel n queue seen ys old h) v later
    ]
    | inr new ↦
        let (zs, rest, made) = unwrap_object fuel n queue seen ys new h in
        rw made (elim m [
          | inl e ↦ inl (inl e)
          | inr later ↦ Covered-unseen v n zs seen (
              queue-Covered fuel (queue ++ held_at store n) (n ∷ seen) zs rest v
                (In-append_left v queue (held_at store n) later))
        ])
  ]

  -- What a yielded object holds is yielded as well.
  pub held-Covered :
      (fuel : ℕ) (queue : List Value) (seen : List ℕ) (ys : List Value)
      → unwrap_errors fuel store queue seen ≡ some ys
      → (m : ℕ) → In (object m) ys
      → (w : Value) → In w (held_at store m)
      → Covered w ys seen
  unfolding unwrap_errors
  held-Covered fuel [] seen ys h m k w c =
      let empty : ys ≡ [] = cc in absurd (unempty (object m) ys empty k)
  held-Covered zero (x ∷ queue) seen ys h m k w c = cc
  held-Covered (suc fuel) (primitive s ∷ queue) seen ys h m k w c =
      let (zs, rest, made) = map-some (primitive s) _ ys h in
      rw made (
        Covered-cons w (primitive s) zs seen (
          held-Covered fuel queue seen zs rest m
            (In-tail (object m) (primitive s) ys zs made (λ e. cc) k) w c))
  held-Covered (suc fuel) (nothing ∷ queue) seen ys h m k w c =
      let (zs, rest, made) = map-some nothing _ ys h in
      rw made (
        Covered-cons w nothing zs seen (
          held-Covered fuel queue seen zs rest m (In-tail (object m) nothing ys zs made (λ e. cc) k)
            w c))
  held-Covered (suc fuel) (object n ∷ queue) seen ys h m k w c =
      elim (Bool-cases (is_seen n seen)) [
        | inl old ↦ held-Covered fuel queue seen ys (unwrap_seen fuel n queue seen ys old h) m k w c
        | inr new ↦
            let (zs, rest, made) = unwrap_object fuel n queue seen ys new h in
            rw made (
              Covered-unseen w n zs seen (elim (Bool-cases (m == n)) [
                | inl e ↦ queue-Covered fuel (queue ++ held_at store n) (n ∷ seen) zs rest w (
                    In-append_right w queue (held_at store n)
                      (subst (λ (j : ℕ). In w (held_at store j)) ((==_iff m n).0 e) c))
                | inr apart ↦
                    held-Covered fuel (queue ++ held_at store n) (n ∷ seen) zs rest m
                      (In-tail (object m) (object n) ys zs made (λ e. ground (arith, apart, e)) k) w
                      c
              ]))
      ]
