-- ===== src/Gateway/RateLimiter/Lru.antt =====
-- The invariant of the limiters' map and of its order, and what `allowRate` does with them.
use open_clause.Base.{
  ℕ, ◌≤◌, ◌<◌, Bool, true, false, some, List, [], ◌∷◌, ◌++◌, Text, length, leb, ◌≡◌, ◌∙◌, refl,
  Bool-cases, inl, inr, length-append, ◌*◌, Text, arith, Option-cases,
}
use open_clause.Base.Dict
use open_clause.Types.ToolCall.{Time}
use open_clause.Gateway.RateLimiter.{
  Limiters, State, remove_first, ask, make_room, admit, allow_rate,
}
use open_clause.Gateway.RateLimiter.Distinct.{
  is_in, AllDistinct, keys, is_in-append, is_in-remove_first, AllDistinct-remove_first,
  AllDistinct-append, length-remove_first, is_in-keys-none, is_in-keys-some, keys-insert_old,
  keys-insert_new, keys-erase, length-keys,
}

module _ (L : Limiters) where
  -- The map holds one limiter for each tenant of the order, and no more than `bound`.
  pub record IsLru (bound : ℕ) (st : State L) : Type 0 where
    pub distinct_keys : AllDistinct (keys st.rate_limiters)
    pub distinct_order : AllDistinct st.rl_order
    pub same : (t : Text) → is_in t st.rl_order ≡ is_in t (keys st.rate_limiters)
    pub same_length : length st.rl_order ≡ length (keys st.rate_limiters)
    pub bounded : length (keys st.rate_limiters) ≤ bound

  IsLru-old :
      (bound : ℕ) (t : Text) (lim : L.Limiter) (st : State L) {old : L.Limiter}
      → IsLru bound st
      → Dict.lookup t st.rate_limiters ≡ some old
      → IsLru bound (record {
        rate_limiters = Dict.insert t lim st.rate_limiters;
        rl_order = remove_first t st.rl_order ++ (t ∷ []);
      })
  IsLru-old bound t lim st v h =
      let here = is_in-keys-some t st.rate_limiters h in
      let e = keys-insert_old t lim st.rate_limiters here in
      let there : is_in t st.rl_order ≡ true = v.same t ∙ here in
      record {
        distinct_keys = rw e v.distinct_keys;
        distinct_order =
            AllDistinct-append t (remove_first t st.rl_order)
              (AllDistinct-remove_first t st.rl_order v.distinct_order)
              (ground (arith, is_in-remove_first t t st.rl_order v.distinct_order));
        same = λ k. ground (
          arith,
          is_in-append k (remove_first t st.rl_order) (t ∷ []),
          is_in-remove_first t k st.rl_order v.distinct_order,
          v.same k,
          v.same t,
        );
        same_length = ground (
          arith,
          length-append (remove_first t st.rl_order) (t ∷ []),
          length-remove_first t st.rl_order there,
          v.same_length,
        );
        bounded = ground (arith, v.bounded);
      }

  IsLru-new :
      (bound : ℕ) (t : Text) (lim : L.Limiter) (st : State L)
      → IsLru bound st
      → length (keys st.rate_limiters) < bound
      → is_in t (keys st.rate_limiters) ≡ false
      → IsLru bound (record {
        rate_limiters = Dict.insert t lim st.rate_limiters;
        rl_order = st.rl_order ++ (t ∷ []);
      })
  IsLru-new bound t lim st v room h =
      let e = keys-insert_new t lim st.rate_limiters h in
      let there : is_in t st.rl_order ≡ false = v.same t ∙ h in
      record {
        distinct_keys = rw e (AllDistinct-append t (keys st.rate_limiters) v.distinct_keys h);
        distinct_order = AllDistinct-append t st.rl_order v.distinct_order there;
        same = λ k. ground (
          arith,
          is_in-append k st.rl_order (t ∷ []),
          is_in-append k (keys st.rate_limiters) (t ∷ []),
          v.same k,
        );
        same_length = ground (
          arith,
          length-append st.rl_order (t ∷ []),
          length-append (keys st.rate_limiters) (t ∷ []),
          v.same_length,
        );
        bounded = ground (arith, length-append (keys st.rate_limiters) (t ∷ []));
      }

  -- What `make_room` leaves: the limiters but the oldest, if the map is full.
  IsRoom : ℕ → State L → State L → Type 0
  IsRoom bound st st' =
      (IsLru bound st' × (length (keys st'.rate_limiters) < bound))
      × ((t : Text)
          → is_in t (keys st.rate_limiters) ≡ false
          → is_in t (keys st'.rate_limiters) ≡ false)

  IsRoom-of_full :
      (bound : ℕ) (m : List (Text × L.Limiter)) (oldest : Text) (rest : List Text)
      → IsLru bound (record { rate_limiters = m; rl_order = oldest ∷ rest })
      → IsRoom bound
          (record { rate_limiters = m; rl_order = oldest ∷ rest })
          (record { rate_limiters = Dict.erase oldest m; rl_order = rest })
  unfolding remove_first IsRoom
  IsRoom-of_full bound m oldest rest v =
      let e = keys-erase oldest m v.distinct_keys in
      let here : is_in oldest (keys m) ≡ true = ground (arith, v.same oldest) in
      let less = length-remove_first oldest (keys m) here in
      let there = λ (t : Text). is_in-remove_first oldest t (keys m) v.distinct_keys in
      (
        (
          record {
            distinct_keys = rw e (AllDistinct-remove_first oldest (keys m) v.distinct_keys);
            distinct_order = v.distinct_order.1;
            same = λ k. ground (arith, v.same k, there k, v.distinct_order);
            same_length = ground (arith, v.same_length);
            bounded = ground (arith, v.bounded);
          },
          ground (arith, v.bounded),
        ),
        λ t h. ground (arith, there t),
      )

  make_room-IsRoom :
      (bound : ℕ) (m : List (Text × L.Limiter)) (order : List Text)
      → 0 < bound
      → IsLru bound (record { rate_limiters = m; rl_order = order })
      → (st' : State L) × (make_room L bound (record { rate_limiters = m; rl_order = order })
          ≡ some st')
        × IsRoom bound (record { rate_limiters = m; rl_order = order }) st'
  unfolding make_room IsRoom
  make_room-IsRoom bound m [] pos v = (
    record { rate_limiters = m; rl_order = [] },
    ground (arith, length-keys m, v.same_length),
    ((v, ground (arith, v.same_length)), λ t h. h),
  )
  make_room-IsRoom bound m (oldest ∷ rest) pos v = elim (Bool-cases (leb bound (length m))) [
    | inr h ↦ (
      record { rate_limiters = m; rl_order = oldest ∷ rest },
      rw h refl,
      ((v, ground (arith, length-keys m)), λ t k. k),
    )
    | inl h ↦ (
      record { rate_limiters = Dict.erase oldest m; rl_order = rest },
      rw h refl,
      IsRoom-of_full bound m oldest rest v,
    )
  ]

  -- `allowRate` never panics on a map that may hold a limiter, and keeps the invariant: the map and
  -- the order name the same tenants, each once, and no more than the bound allows. The tenant that
  -- asked is in the map afterwards.
  pub allow_rate-IsLru :
      (bound limit : ℕ) (t : Text) (now : Time) (m : List (Text × L.Limiter)) (order : List Text)
      → 0 < bound
      → IsLru bound (record { rate_limiters = m; rl_order = order })
      → (answer : Bool) × (st' : State L) × (allow_rate L bound limit t now
            (record { rate_limiters = m; rl_order = order })
          ≡ some (answer, st'))
        × IsLru bound st'
        × (is_in t st'.rl_order ≡ true)
  unfolding allow_rate ask admit IsRoom
  allow_rate-IsLru bound limit t now m order pos v = elim (Option-cases (Dict.lookup t m)) [
    | inr (lim, h) ↦ (
      (L.allow now lim).0,
      record {
        rate_limiters = Dict.insert t (L.allow now lim).1 m;
        rl_order = remove_first t order ++ (t ∷ []);
      },
      rw (h, allow_rate) refl,
      IsLru-old bound t (L.allow now lim).1 _ v h,
      ground (arith, is_in-append t (remove_first t order) (t ∷ [])),
    )
    | inl h ↦
        let (st', e, ((v', room), fresh)) = make_room-IsRoom bound m order pos v in
        let (answer, lim) = L.allow now (L.new_limiter limit (limit * 2)) in
        (
          answer,
          record {
            rate_limiters = Dict.insert t lim st'.rate_limiters;
            rl_order = st'.rl_order ++ (t ∷ []);
          },
          rw (h, e, allow_rate) refl,
          IsLru-new bound t lim st' v' room (fresh t (is_in-keys-none t m h)),
          ground (arith, is_in-append t st'.rl_order (t ∷ [])),
        )
  ]
