-- ===== src/Masque/Stream/Layers.antt =====
-- Which writers the search finds its interfaces in, told by the layers themselves.
use forwardproxy.Base.{
  ℕ, zero, suc, ◌<◌, List, [], ◌∷◌, ◌++◌, Option, none, some, ◌≡◌, ◌≢◌, ◌↔◌, ◌⊎◌, inl, inr, refl,
  sym, ap, ◌∙◌, ==_iff, arith, length, Option-cases,
}
use forwardproxy.Masque.Stream.{
  Layer, both, http3_capabilities_from_response_writer, latest, max_depth, next_writer, search,
}

abbrev pub newer : {A : Type 0} → Option A → Option A → Option A
newer none a = a
newer (some b) a = some b

latest_is : {A : Type 0} (new old : Option A) → latest new old ≡ newer new old
latest_is none old = refl
latest_is (some b) old = refl

-- The interface of the innermost of these writers that has one, else `a`.
abbrev pub innermost : {A : Type 0} → (ℕ → Option A) → Option A → List ℕ → Option A
innermost f a [] = a
innermost f a (w ∷ ws) = innermost f (newer (f w) a) ws

module _ {S T : Type 0} (layers : ℕ → Layer S T) where
  abbrev pub streamers : ℕ → Option S
  streamers w = (layers w).streamer

  abbrev pub settings_of : ℕ → Option T
  settings_of w = (layers w).settings

  -- From the writer `w` one comes to `v` by unwrapping the writers `us`, outermost first, none of
  -- which wraps itself.
  abbrev pub Leads : ℕ → List ℕ → ℕ → Type 0
  Leads w [] v = w ≡ v
  Leads w (u ∷ us) v =
      (w ≡ u) × (next : ℕ) × ((layers w).unwrap ≡ some (some next)) × (next ≢ w) × Leads next us v

  -- The search from `w` with interfaces `a` and `b` in hand ends at a writer `v`, at most `depth`
  -- writers deep, the first at which it has both.
  pub record Finds (depth w : ℕ) (a : Option S) (b : Option T) (s : S) (t : T) : Type 0 where
    pub passed : List ℕ
    pub last : ℕ
    pub leads : Leads w passed last
    pub within : length passed < depth
    pub lacks : (innermost streamers a passed ≡ none) ⊎ (innermost settings_of b passed ≡ none)
    pub stream_is : innermost streamers a (passed ++ last ∷ []) ≡ some s
    pub settings_are : innermost settings_of b (passed ++ last ∷ []) ≡ some t

  next_writer_iff :
      (w n : ℕ) (o : Option (Option ℕ))
      → (next_writer w o ≡ some n) ↔ ((o ≡ some (some n)) × (n ≢ w))
  unfolding next_writer
  next_writer_iff w n none = ground arith
  next_writer_iff w n (some none) = ground arith
  next_writer_iff w n (some (some m)) = ground (arith, ==_iff m w)

  both-found :
      (a : Option S) (b : Option T) (rest : Option (S × T)) (s : S) (t : T)
      → both layers a b rest ≡ some (s, t)
      → ((a ≡ some s) × (b ≡ some t)) ⊎ (((a ≡ none) ⊎ (b ≡ none)) × (rest ≡ some (s, t)))
  unfolding both
  both-found (some a) (some b) rest s t e = inl (ground (arith, e), ground (arith, e))
  both-found (some a) none rest s t e = inr (inr refl, e)
  both-found none (some b) rest s t e = inr (inl refl, e)
  both-found none none rest s t e = inr (inl refl, e)

  both-holds :
      (a : Option S) (b : Option T) (rest : Option (S × T)) (s : S) (t : T)
      → a ≡ some s
      → b ≡ some t
      → both layers a b rest ≡ some (s, t)
  unfolding both
  both-holds a b rest s t e e' = rw (e, e') refl

  both-lacks :
      (a : Option S) (b : Option T) (rest : Option (S × T))
      → (a ≡ none) ⊎ (b ≡ none)
      → both layers a b rest ≡ rest
  unfolding both
  both-lacks (some a) (some b) rest (inl e) = absurd (cc (e))
  both-lacks (some a) (some b) rest (inr e) = absurd (cc (e))
  both-lacks (some a) none rest h = refl
  both-lacks none (some b) rest h = refl
  both-lacks none none rest h = refl

  newer-none : {A : Type 0} (new old : Option A) → newer new old ≡ none → old ≡ none
  newer-none none old e = e
  newer-none (some b) old e = absurd (cc (e))

  innermost-none :
      {A : Type 0} (f : ℕ → Option A) (a : Option A) (ws : List ℕ)
      → innermost f a ws ≡ none
      → a ≡ none
  innermost-none f a [] e = e
  innermost-none f a (w ∷ ws) e = newer-none (f w) a (innermost-none f (newer (f w) a) ws e)

  passes :
      (d w n : ℕ) (a : Option S) (b : Option T) (s : S) (t : T)
      → (layers w).unwrap ≡ some (some n)
      → n ≢ w
      → Finds d n (newer (streamers w) a) (newer (settings_of w) b) s t
      → Finds (suc d) w a b s t
  passes d w n a b s t e ne v = record {
    passed = w ∷ v.passed;
    last = v.last;
    leads = (refl, n, e, ne, v.leads);
    within = omega (arith, v.within);
    lacks = v.lacks;
    stream_is = v.stream_is;
    settings_are = v.settings_are;
  }

  search-step :
      (d w : ℕ) (a : Option S) (b : Option T)
      → search layers (suc d) (some w) a b
        ≡ both layers (newer (streamers w) a) (newer (settings_of w) b) (
            search layers d
              (next_writer w (layers w).unwrap)
              (newer (streamers w) a)
              (newer (settings_of w) b))
  unfolding search
  search-step d w a b = rw (latest_is (streamers w) a, latest_is (settings_of w) b) refl

  search-nil : (d : ℕ) (a : Option S) (b : Option T) → search layers d none a b ≡ none
  unfolding search
  search-nil zero a b = refl
  search-nil (suc d) a b = refl

  search-finds :
      (d w : ℕ) (a : Option S) (b : Option T) (s : S) (t : T)
      → (a ≡ none) ⊎ (b ≡ none)
      → search layers d (some w) a b ≡ some (s, t)
      → Finds d w a b s t
  unfolding search
  search-finds zero w a b s t h e = absurd (cc (e))
  search-finds (suc d) w a b s t h e =
      let a' = newer (streamers w) a in
      let b' = newer (settings_of w) b in
      let next = next_writer w (layers w).unwrap in
      elim (both-found a' b' (search layers d next a' b') s t (sym (search-step d w a b) ∙ e)) [
        | inl (is_s, is_t) ↦ record {
          passed = [];
          last = w;
          leads = refl;
          within = omega arith;
          lacks = h;
          stream_is = is_s;
          settings_are = is_t;
        }
        | inr (lacks, found) ↦ elim (Option-cases next) [
          | inl stops ↦ absurd (
              cc (sym (search-nil d a' b') ∙ ap (λ o. search layers d o a' b') (sym stops) ∙ found))
          | inr (n, goes) ↦
              let (unwraps, other) = (next_writer_iff w n (layers w).unwrap).0 goes in
              passes d w n a b s t unwraps other (
                search-finds d n a' b' s t lacks
                  (ap (λ o. search layers d o a' b') (sym goes) ∙ found))
        ]
      ]

  finds-search :
      (d w : ℕ) (a : Option S) (b : Option T) (s : S) (t : T) (passed : List ℕ) (last : ℕ)
      → Leads w passed last
      → length passed < d
      → (innermost streamers a passed ≡ none) ⊎ (innermost settings_of b passed ≡ none)
      → innermost streamers a (passed ++ last ∷ []) ≡ some s
      → innermost settings_of b (passed ++ last ∷ []) ≡ some t
      → search layers d (some w) a b ≡ some (s, t)
  unfolding search
  finds-search zero w a b s t passed last leads lt lacks is_s is_t = absurd (omega (arith, lt))
  finds-search (suc d) w a b s t [] last leads lt lacks is_s is_t =
      search-step d w a b
      ∙ both-holds _ _ _ s t (ap (λ x. newer (streamers x) a) leads ∙ is_s)
          (ap (λ x. newer (settings_of x) b) leads ∙ is_t)
  finds-search (suc d) w a b s t (u ∷ us) last (same, n, unwraps, other, leads) lt lacks is_s is_t =
      let a' = newer (streamers w) a in
      let b' = newer (settings_of w) b in
      let of_s =
        λ (vs : List ℕ). ap (λ (x : ℕ). innermost streamers (newer (streamers x) a) vs) same in
      let of_t =
        λ (vs : List ℕ). ap (λ (x : ℕ). innermost settings_of (newer (settings_of x) b) vs) same in
      let goes = (next_writer_iff w n (layers w).unwrap).1 (unwraps, other) in
      let lacks' : (innermost streamers a' us ≡ none) ⊎ (innermost settings_of b' us ≡ none) =
        elim lacks [ inl e ↦ inl (of_s us ∙ e) | inr e ↦ inr (of_t us ∙ e) ] in
      let neither : (a' ≡ none) ⊎ (b' ≡ none) = elim lacks' [
        | inl e ↦ inl (innermost-none streamers a' us e)
        | inr e ↦ inr (innermost-none settings_of b' us e)
      ] in
      search-step d w a b
      ∙ both-lacks a' b' _ neither
      ∙ ap (λ o. search layers d o a' b') goes
      ∙ finds-search d n a' b' s t us last leads (omega (arith, lt)) lacks'
          (of_s (us ++ last ∷ []) ∙ is_s) (of_t (us ++ last ∷ []) ∙ is_t)

  -- From the writer `w` an HTTP/3 stream `s` and settings `t` are found exactly where unwrapping leads
  -- from `w`, through at most fifteen writers that do not have both, to a writer with which both are
  -- there: `s` and `t` are then those of the innermost writers on the way that have them. No writer on
  -- the way but the last one wraps itself.
  pub http3_capabilities_iff :
      (w : ℕ) (s : S) (t : T)
      → (http3_capabilities_from_response_writer layers (some w) ≡ some (s, t))
        ↔ Finds 16 w none none s t
  unfolding http3_capabilities_from_response_writer
  http3_capabilities_iff w s t = (
    search-finds max_depth w none none s t (inl refl),
    λ v.
        finds-search max_depth w none none s t v.passed v.last v.leads v.within v.lacks v.stream_is
          v.settings_are,
  )
