-- ===== src/Site/Failures/Bounded.antt =====
-- What is captured while a page is in view.
use hifld_next.Common.{
  ℕ, ◌≤◌, String, eq_refl, List, [], ◌∷◌, ◌++◌, length, length-append, Distinct, Distinct-add,
  append_assoc, append-nil, All, Option, none, some, ◌≡◌, sym, ap, subst, ◌∙◌, arith,
}
use hifld_next.Site.Failures.{
  FailureTracking, FailureCall, max_reported_failures, key_of, at_page, prepend_key,
  track_ui_failure, track_all,
}

pub record IsTracking (s : FailureTracking) : Type 0 where
  pub distinct : Distinct s.reported
  pub few : length s.reported ≤ max_reported_failures

module _ (print : ℕ → String) (stringify : List (String × String) → String) where
  track_ui_failure-IsTracking :
      (call : FailureCall) (s : FailureTracking)
      → IsTracking s
      → IsTracking (track_ui_failure print stringify call s).0
  unfolding track_ui_failure at_page
  track_ui_failure-IsTracking call s v =
      let here = at_page call.pathname s in
      let key = key_of print stringify call in
      ground (arith, Distinct-add here.reported key, length-append here.reported (key ∷ []))

  -- What is reported at a page.
  abbrev here_reported : String → FailureTracking → List String
  here_reported pathname s = (at_page pathname s).reported

  key_list : Option String → List String
  key_list none = []
  key_list (some key) = key ∷ []

  -- A call at the page adds what it captures to what is reported there.
  track_ui_failure_adds :
      (call : FailureCall) (s : FailureTracking)
      → here_reported call.pathname (track_ui_failure print stringify call s).0
        ≡ here_reported call.pathname s ++ key_list (track_ui_failure print stringify call s).1
  unfolding track_ui_failure at_page key_list
  track_ui_failure_adds call s = ground (arith, eq_refl call.pathname, append-nil s.reported)

  prepend_key_append :
      (xs : List String) (o : Option String) (keys : List String)
      → (xs ++ key_list o) ++ keys ≡ xs ++ prepend_key o keys
  unfolding key_list
  prepend_key_append xs none keys = ap (λ l. l ++ keys) (append-nil xs)
  prepend_key_append xs (some key) keys = append_assoc xs (key ∷ []) keys

  -- The same for a run of calls at one page.
  track_all_adds :
      (pathname : String) (calls : List FailureCall) (s : FailureTracking)
      → All (λ (c : FailureCall). c.pathname ≡ pathname) calls
      → here_reported pathname (track_all print stringify calls s).0
        ≡ here_reported pathname s ++ (track_all print stringify calls s).1
  unfolding track_all
  track_all_adds pathname [] s h = sym (append-nil (here_reported pathname s))
  track_all_adds pathname (call ∷ calls) s (e, h) =
      let step = track_ui_failure print stringify call s in
      track_all_adds pathname calls step.0 h
      ∙ ap (λ l. l ++ (track_all print stringify calls step.0).1)
          (subst (λ p. here_reported p step.0 ≡ here_reported p s ++ key_list step.1) e
            (track_ui_failure_adds call s))
      ∙ prepend_key_append (here_reported pathname s) step.1
          (track_all print stringify calls step.0).1

  track_all-IsTracking :
      (calls : List FailureCall) (s : FailureTracking)
      → IsTracking s
      → IsTracking (track_all print stringify calls s).0
  unfolding track_all
  track_all-IsTracking [] s v = v
  track_all-IsTracking (call ∷ calls) s v =
      track_all-IsTracking calls (track_ui_failure print stringify call s).0
        (track_ui_failure-IsTracking call s v)

  at_page-IsTracking :
      (pathname : String) (s : FailureTracking) → IsTracking s → IsTracking (at_page pathname s)
  unfolding at_page
  at_page-IsTracking pathname s v = ground arith

  Distinct-suffix : (xs ys : List String) → Distinct (xs ++ ys) → Distinct ys
  Distinct-suffix [] ys d = d
  Distinct-suffix (x ∷ xs) ys (fresh, d) = Distinct-suffix xs ys d

  -- From a state with at most twenty reported failures, none of them twice: any number of failures
  -- while one page is in view leads to at most twenty captured ones, and none is captured twice.
  pub track_all_bounded :
      (pathname : String) (calls : List FailureCall) (s : FailureTracking)
      → IsTracking s
      → All (λ (c : FailureCall). c.pathname ≡ pathname) calls
      → let captured = (track_all print stringify calls s).1 in
        Distinct captured × (length captured ≤ max_reported_failures)
  track_all_bounded pathname calls s v h =
      let adds = track_all_adds pathname calls s h in
      let after = (track_all print stringify calls s).0 in
      let captured = (track_all print stringify calls s).1 in
      let w = at_page-IsTracking pathname after (track_all-IsTracking calls s v) in
      (
        Distinct-suffix (here_reported pathname s) captured (subst Distinct adds w.distinct),
        omega (
          arith,
          w.few,
          ap (length {A = String}) adds,
          length-append (here_reported pathname s) captured,
        ),
      )
