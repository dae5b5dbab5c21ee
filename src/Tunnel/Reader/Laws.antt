-- ===== src/Tunnel/Reader/Laws.antt =====
-- What one read, or one full read, takes from a reader.
use mathlib.Core.List.{append_assoc, append-nil}
use forwardproxy.Base.{
  ℕ, ◌+◌, ◌-◌, ◌≤◌, ◌<◌, ◌≡◌, inl, inr, refl, sym, ap, ◌∙◌, [], ◌∷◌, ◌++◌, none, some, Bytes,
  length, take, drop, arith, length-append, take-append-drop, length-take, length-drop, Bool-cases,
  Option-cases, leb, leb→le, ◌==◌,
}
use forwardproxy.Tunnel.Reader.{
  Failure, Reader, done, chunk, last, read, fill, read_full, at_end, content, final, size, Outcome,
}

cut-append : (n : ℕ) (b rest : Bytes) → take n b ++ (drop n b ++ rest) ≡ b ++ rest
cut-append n b rest = rw (← append_assoc) (ap (λ x. x ++ rest) (take-append-drop n b))

pub record Reads (n : ℕ) (r : Reader) (o : Outcome) : Type 0 where
  pub content_is : content r ≡ o.got ++ content o.rest
  pub final_is : final o.rest ≡ final r
  pub shrinks : 0 < n → o.failure ≡ none → size o.rest < size r
  pub takes : 0 < length o.got → size o.rest < size r
  pub no_grow : size o.rest ≤ size r
  pub fits : length o.got ≤ n
  pub fails : (e : Failure) → o.failure ≡ some e → (e ≡ final r) × (content o.rest ≡ [])

pub read-Reads : (n : ℕ) (r : Reader) → Reads n r (read n r)
unfolding read
read-Reads n (done e) = record {
  content_is = refl;
  final_is = refl;
  shrinks = λ _ h. cc;
  takes = λ h. omega arith;
  no_grow = omega arith;
  fits = omega arith;
  fails = λ x h. (cc, refl);
}
read-Reads n (chunk b r) = elim (Bool-cases (leb (length b) n)) [
  | inl all ↦
      rw (all, read)
        (record {
          content_is = refl;
          final_is = refl;
          shrinks = λ _ _. omega arith;
          takes = λ _. omega arith;
          no_grow = omega arith;
          fits = leb→le _ _ all;
          fails = λ x h. absurd (cc);
        })
  | inr part ↦
      rw (part, read)
        (record {
          content_is = sym (cut-append n b (content r));
          final_is = refl;
          shrinks = λ p _. ground (arith, length-drop n b);
          takes = λ p. ground (arith, length-drop n b, length-take n b);
          no_grow = omega (arith, length-drop n b);
          fits = omega (arith, length-take n b);
          fails = λ x h. absurd (cc);
        })
]
read-Reads n (last b e) = elim (Bool-cases (leb (length b) n)) [
  | inl all ↦
      rw (all, read)
        (record {
          content_is = sym (append-nil b);
          final_is = refl;
          shrinks = λ _ h. absurd (cc);
          takes = λ _. omega arith;
          no_grow = omega arith;
          fits = leb→le _ _ all;
          fails = λ x h. (cc, refl);
        })
  | inr part ↦
      rw (part, read)
        (record {
          content_is = sym (take-append-drop n b);
          final_is = refl;
          shrinks = λ p _. ground (arith, length-drop n b);
          takes = λ p. ground (arith, length-drop n b, length-take n b);
          no_grow = omega (arith, length-drop n b);
          fits = omega (arith, length-take n b);
          fails = λ x h. absurd (cc);
        })
]

fill-Reads : (n : ℕ) (r : Reader) → Reads n r (fill n r)
unfolding fill
fill-Reads n (done e) = read-Reads n (done e)
fill-Reads n (last b e) = read-Reads n (last b e)
fill-Reads n (chunk b r) = elim (Bool-cases (leb n (length b))) [
  | inl enough ↦ rw (enough, fill) (read-Reads n (chunk b r))
  | inr short ↦
      let more = fill-Reads (n - length b) r in
      rw (short, fill)
        (record {
          content_is = ap (◌++◌ b) more.content_is ∙ sym (append_assoc b _ _);
          final_is = more.final_is;
          shrinks = λ _ _. omega (arith, more.no_grow);
          takes = λ _. omega (arith, more.no_grow);
          no_grow = omega (arith, more.no_grow);
          fits = ground (arith, more.fits, length-append b (fill (n - length b) r).got);
          fails = more.fails;
        })
]

-- A fill that has not met an error is full.
fill_full : (n : ℕ) (r : Reader) → (fill n r).failure ≡ none → length (fill n r).got ≡ n
unfolding fill read
fill_full n (done e) h = absurd (cc)
fill_full n (last b e) h = ground (arith, length-take n b)
fill_full n (chunk b r) h = ground (
  arith,
  length-take n b,
  fill_full (n - length b) r,
  length-append b (fill (n - length b) r).got,
)

-- A full read gives the next `n` bytes and no error if there are as many, whatever the schedule.
pub record ReadsFull (n : ℕ) (r : Reader) (o : Outcome) : Type 0 where
  pub content_is : content r ≡ o.got ++ content o.rest
  pub final_is : final o.rest ≡ final r
  pub takes : 0 < length o.got → size o.rest < size r
  pub no_grow : size o.rest ≤ size r
  pub full : n ≤ length (content r) → (length o.got ≡ n) × (o.failure ≡ none)
  pub short :
      length (content r) < n → (o.got ≡ content r) × (o.failure ≡ at_end n o.got (some (final r)))

pub read_full-ReadsFull : (n : ℕ) (r : Reader) → ReadsFull n r (read_full n r)
unfolding read_full
read_full-ReadsFull n r = elim (Bool-cases (n == 0)) [
  | inl nothing ↦
      rw (nothing, read_full)
        (record {
          content_is = refl;
          final_is = refl;
          takes = λ h. omega arith;
          no_grow = omega arith;
          full = λ h. ground arith;
          short = λ h. ground arith;
        })
  | inr some_bytes ↦ elim (Bool-cases (leb n (length out.got))) [
    | inl enough ↦
        rw (some_bytes, enough, read_full)
          (record {
            content_is = f.content_is;
            final_is = f.final_is;
            takes = f.takes;
            no_grow = f.no_grow;
            full = λ h. ground (arith, f.fits);
            short = λ h. absurd (omega (arith, leb→le _ _ enough, total));
          })
    | inr lacking ↦
        rw (some_bytes, lacking, read_full)
          (elim (Option-cases out.failure) [
            | inl none_yet ↦ absurd (ground (arith, fill_full n r none_yet))
            | inr (e, failed) ↦
                let (e_is, nothing_left) = f.fails e failed in
                let all : out.got ≡ content r =
                  sym (f.content_is ∙ ap (λ x. out.got ++ x) nothing_left ∙ append-nil out.got) in
                record {
                  content_is = f.content_is;
                  final_is = f.final_is;
                  takes = f.takes;
                  no_grow = f.no_grow;
                  full = λ h. absurd (ground (arith, ap (λ (x : Bytes). length x) all));
                  short = λ h. (all, ap (at_end n out.got) (failed ∙ ap (λ x. some x) e_is));
                }
          ])
  ]
]
  where
    out : Outcome
    out = fill n r

    f : Reads n r out
    f = fill-Reads n r

    total : length (content r) ≡ length out.got + length (content out.rest)
    total = ap (λ (x : Bytes). length x) f.content_is ∙ length-append out.got (content out.rest)

pub append_cancel : (a b x y : Bytes) → a ++ x ≡ b ++ y → length a ≡ length b → (a ≡ b) × (x ≡ y)
append_cancel [] [] x y e h = (refl, e)
append_cancel [] (c ∷ b) x y e h = absurd (omega arith)
append_cancel (c ∷ a) [] x y e h = absurd (omega arith)
append_cancel (c ∷ a) (d ∷ b) x y e h =
    let (tails, rests) = append_cancel a b x y (cc) (omega arith) in (ground arith, rests)

-- The bytes that stand first are read, and the rest is left.
pub read_full-prefix :
    (b rest : Bytes) (r : Reader)
    → content r ≡ b ++ rest
    → ((read_full (length b) r).got ≡ b)
      × ((read_full (length b) r).failure ≡ none)
      × (content (read_full (length b) r).rest ≡ rest)
read_full-prefix b rest r e =
    let f = read_full-ReadsFull (length b) r in
    let (fits, clean) =
      f.full (omega (arith, ap (λ (x : Bytes). length x) e, length-append b rest)) in
    let (same, left) = append_cancel _ b _ rest (sym f.content_is ∙ e) fits in (same, clean, left)
