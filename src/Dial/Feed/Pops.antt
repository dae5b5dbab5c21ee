-- ===== src/Dial/Feed/Pops.antt =====
-- What `popLocked` and `advance` take out of the feed.
use forwardproxy.Base.{
  Bool, true, false, not, ◌&&◌, List, [], ◌∷◌, Option, none, some, Bytes, ◌≡◌, inl, inr, refl,
  arith, Bool-cases, Option-cases,
}
use forwardproxy.Dial.Feed.{
  Feed, advance, candidate, idle, is_empty, pop_locked, pop_v4, pop_v6, take_v6,
}
use forwardproxy.Dial.Interleave.{Family, v4, v6}

module _ {C : Type 0} where
  -- The head of one queue has been taken, and nothing else has changed.
  pub data Popped (f : Feed C) (a : Bytes) (f' : Feed C) : Type 0 where
    from_v4 :
        (rest : List Bytes)
        → f.queue_v4 ≡ a ∷ rest
        → f' ≡ record f { queue_v4 = rest }
        → Popped f a f'
    from_v6 :
        (rest : List Bytes)
        → f.queue_v6 ≡ a ∷ rest
        → f' ≡ record f { queue_v6 = rest }
        → Popped f a f'

  pop_v4-Popped :
      (f f' : Feed C) (a : Bytes) (q : List Bytes)
      → f.queue_v4 ≡ q
      → pop_v4 f q ≡ some (a, f')
      → Popped f a f'
  unfolding pop_v4
  pop_v4-Popped f f' a [] e h = absurd (cc)
  pop_v4-Popped f f' a (b ∷ rest) e h = from_v4 rest (ground (arith, e, h)) (ground (arith, h))

  pop_v6-Popped :
      (f f' : Feed C) (a : Bytes) (q : List Bytes)
      → f.queue_v6 ≡ q
      → pop_v6 f q ≡ some (a, f')
      → Popped f a f'
  unfolding pop_v6
  pop_v6-Popped f f' a [] e h = absurd (cc)
  pop_v6-Popped f f' a (b ∷ rest) e h = from_v6 rest (ground (arith, e, h)) (ground (arith, h))

  pub pop_locked-Popped :
      (last : Option Family) (f f' : Feed C) (a : Bytes)
      → pop_locked last f ≡ some (a, f')
      → Popped f a f'
  unfolding pop_locked
  pop_locked-Popped last f f' a h = elim (Bool-cases (is_empty f.queue_v4 && is_empty f.queue_v6)) [
    | inl e ↦ absurd (cc (rw (e, pop_locked) at h))
    | inr e ↦ elim (Bool-cases (take_v6 f last)) [
      | inl t ↦ pop_v6-Popped f f' a f.queue_v6 refl (rw (e, t, pop_locked) at h)
      | inr t ↦ pop_v4-Popped f f' a f.queue_v4 refl (rw (e, t, pop_locked) at h)
    ]
  ]

  advance_pops :
      (last : Option Family) (f f' : Feed C) (a : Bytes)
      → advance true last f ≡ candidate a f'
      → pop_locked last f ≡ some (a, f')
  unfolding advance
  advance_pops last f f' a h = elim (Option-cases (pop_locked last f)) [
    | inl e ↦ ground (arith, h, e)
    | inr ((b, g), e) ↦ ground (arith, h, e)
  ]

  pub advance-Popped :
      (due : Bool) (last : Option Family) (f f' : Feed C) (a : Bytes)
      → advance due last f ≡ candidate a f'
      → (due ≡ true) × Popped f a f'
  unfolding advance
  advance-Popped false last f f' a h = absurd (cc)
  advance-Popped true last f f' a h =
      (refl, pop_locked-Popped last f f' a (advance_pops last f f' a h))

  abbrev pub both_empty : Feed C → Bool
  both_empty f = is_empty f.queue_v4 && is_empty f.queue_v6

  pop_v4-none : (f : Feed C) (q : List Bytes) → pop_v4 f q ≡ none → is_empty q ≡ true
  unfolding pop_v4
  pop_v4-none f [] h = refl
  pop_v4-none f (a ∷ rest) h = absurd (cc)

  pop_v6-none : (f : Feed C) (q : List Bytes) → pop_v6 f q ≡ none → is_empty q ≡ true
  unfolding pop_v6
  pop_v6-none f [] h = refl
  pop_v6-none f (a ∷ rest) h = absurd (cc)

  -- A feed with a candidate gives one.
  pop_locked-none :
      (last : Option Family) (f : Feed C) → pop_locked last f ≡ none → both_empty f ≡ true
  unfolding pop_locked take_v6
  pop_locked-none none f h = ground (arith, h, pop_v4-none f f.queue_v4, pop_v6-none f f.queue_v6)
  pop_locked-none (some v4) f h =
      ground (arith, h, pop_v4-none f f.queue_v4, pop_v6-none f f.queue_v6)
  pop_locked-none (some v6) f h =
      ground (arith, h, pop_v4-none f f.queue_v4, pop_v6-none f f.queue_v6)

  pub advance-idle :
      (due : Bool) (last : Option Family) (f : Feed C) (closed empty : Bool)
      → advance due last f ≡ idle closed empty
      → (closed ≡ f.closed) × (empty ≡ both_empty f) × ((due && not (both_empty f)) ≡ false)
  unfolding advance
  advance-idle due last f closed empty h = elim (Option-cases (pop_locked last f)) [
    | inl e ↦ let none_left = pop_locked-none last f e in ground (arith, h, e, none_left)
    | inr ((a, f'), e) ↦ ground (arith, h, e)
  ]
