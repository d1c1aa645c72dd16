-- ===== src/Oidc/ClientAuth/Limits.antt =====
-- How many attempts a limiter lets through in its window.
use opened_connect_server.Prelude.{
  leb, eqb, if◌then◌else◌, ==_refl, Bool-cases, if_true, if_false, All, ℕ, ◌+◌, ◌≤◌, ◌<◌, String,
  ◌≡◌, refl, sym, ap, ◌∙◌, subst, inl, inr, Bool, true, false, none, some, List, [], ◌∷◌, arith,
}
use opened_connect_server.Clock.{Time, Duration, after}
use opened_connect_server.Table.{
  get, put, keep, size, get_or, get-put, HasUniqueKeys, put-HasUniqueKeys, get-keep-none,
  keep-HasUniqueKeys, get-keep,
}
use opened_connect_server.Oidc.ClientAuth.{
  Limiter, no_entry, counted, max_entries, take_live, take_token, LimitEntry,
}

one_if : Bool → ℕ
one_if true = 1
one_if false = 0

-- how many of the attempts at these times the limiter lets through
unfoldable pub accepted : String → ℕ → Duration → List Time → Limiter → ℕ
unfolding one_if
accepted key limit window [] l = 0
accepted key limit window (t ∷ ts) l =
    let (passed, m) = take_token key limit window t l in
    one_if passed + accepted key limit window ts m

module _ (key : String) (limit : ℕ) (window : Duration) where
  take_live-found :
      (now : Time) (l : Limiter) (e : LimitEntry)
      → get l key ≡ some e
      → take_live key limit window now l
        ≡ (if leb limit e.count then (false, l) else (true, put l key (counted e window now)))
  unfolding take_live
  take_live-found now l e there = rw (there, take_live, get_or) refl

  take_live-new :
      (now : Time) (l : Limiter)
      → 1 ≤ limit
      → get l key ≡ none
      → take_live key limit window now l ≡ (
          if leb max_entries (size l)
          then (false, l)
          else (true, put l key (counted no_entry window now)))
  unfolding take_live
  take_live-new now l some_limit gone =
      let new : take_live key limit window now l ≡ (
          if leb limit 0
          then (false, l)
          else if leb max_entries (size l)
          then (false, l)
          else (true, put l key (counted no_entry window now))) =
        rw (gone, take_live, get_or) refl in
      new ∙ if_false (leb limit 0) _ _ (ground arith)

  -- what a pair of a verdict and a limiter lets through from there on
  abbrev passes : Bool × Limiter → List Time → ℕ
  passes r ts = one_if (r.0) + accepted key limit window ts r.1

  accepted-step :
      (t : Time) (ts : List Time) (l : Limiter) {r : Bool × Limiter}
      → take_live key limit window t (keep (λ e. after e.expires t) l) ≡ r
      → accepted key limit window (t ∷ ts) l ≡ passes r ts
  unfolding accepted take_token
  accepted-step t ts l h = ap (λ r. passes r ts) h

  accepted_live :
      (ts : List Time) (l : Limiter) (e : LimitEntry)
      → HasUniqueKeys l
      → get l key ≡ some e
      → 1 ≤ e.count
      → e.count ≤ limit
      → All (λ t. t < e.expires) ts
      → accepted key limit window ts l + e.count ≤ limit
  unfolding accepted one_if
  accepted_live [] l e u there begun low times = omega arith
  accepted_live (t ∷ ts) l e u there begun low times =
      let m = keep (λ (x : LimitEntry). after x.expires t) l in
      let unique = keep-HasUniqueKeys (λ (x : LimitEntry). after x.expires t) l u in
      let kept : get m key ≡ some e =
        ground (arith, get-keep (λ (x : LimitEntry). after x.expires t) l key u, there, times.0) in
      elim (Bool-cases (leb limit e.count)) [
        | inl full ↦
            let step =
              accepted-step t ts l
                (take_live-found t m e kept ∙ if_true (leb limit e.count) _ _ full) in
            ground (arith, step, accepted_live ts m e unique kept begun low times.1)
        | inr room ↦
            let step =
              accepted-step t ts l
                (take_live-found t m e kept ∙ if_false (leb limit e.count) _ _ room) in
            let same : eqb e.count 0 ≡ false = ground arith in
            let stored : get (put m key (counted e window t)) key ≡ some (counted e window t) =
              ground (arith, get-put m key key (counted e window t), ==_refl key) in
            let rest =
              accepted_live ts (put m key (counted e window t)) (counted e window t)
                (put-HasUniqueKeys m key (counted e window t) unique) stored (ground arith)
                (ground (arith, room))
                (subst (λ x. All (λ t. t < x) ts)
                  (sym (if_false (eqb e.count 0) (t + window) e.expires same)) times.1) in
            ground (arith, step, rest)
      ]

  later_times :
      (start t : Time) (ts : List Time)
      → start ≤ t
      → All (λ x. (start ≤ x) × (x < start + window)) ts
      → All (λ x. x < t + window) ts
  later_times start t [] low times = tt
  later_times start t (x ∷ xs) low times =
      (ground (arith, times.0), later_times start t xs low times.1)

  -- A limiter without an entry for a key lets through at most as many attempts for it as its limit, a
  -- positive number, says, among all attempts that fall within one window, where its keys are unique.
  pub accepted-bound :
      (start : Time) (ts : List Time) (l : Limiter)
      → HasUniqueKeys l
      → get l key ≡ none
      → 1 ≤ limit
      → All (λ t. (start ≤ t) × (t < start + window)) ts
      → accepted key limit window ts l ≤ limit
  unfolding accepted one_if
  accepted-bound start [] l u gone some_limit times = ground arith
  accepted-bound start (t ∷ ts) l u gone some_limit times =
      let m = keep (λ (x : LimitEntry). after x.expires t) l in
      let unique = keep-HasUniqueKeys (λ (x : LimitEntry). after x.expires t) l u in
      let still : get m key ≡ none =
        get-keep-none (λ (x : LimitEntry). after x.expires t) l key gone in
      elim (Bool-cases (leb max_entries (size m))) [
        | inl full ↦
            let step =
              accepted-step t ts l (
                take_live-new t m some_limit still ∙ if_true (leb max_entries (size m)) _ _ full) in
            ground (arith, step, accepted-bound start ts m unique still some_limit times.1)
        | inr room ↦
            let step =
              accepted-step t ts l (
                take_live-new t m some_limit still
                ∙ if_false (leb max_entries (size m)) _ _ room) in
            let e = counted no_entry window t in
            let rest =
              accepted_live ts (put m key e) e (put-HasUniqueKeys m key e unique)
                (ground (arith, get-put m key key e, ==_refl key)) (ground arith) some_limit
                (later_times start t ts times.0.0 times.1) in
            ground (arith, step, rest)
      ]
