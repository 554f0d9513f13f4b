-- ===== src/Http/Retries.antt =====
-- The retries of a request and the errors of its answer (src/mirror/hub.rs, `with_retries` and `classify`).
use canvas_fuse.Prelude.{
  ℕ, zero, suc, ◌+◌, ◌*◌, ◌≤◌, ◌≡◌, refl, ap, Bool, true, false, ◌||◌, not, Option, none, some,
  Text, arith, Bool-cases, inl, inr, nat_eq, ◌==◌, get_or, ltb, if◌then◌else◌,
}
use canvas_fuse.Hub.{HubError, offline, other, Result, ok, err, is_permanent}
use canvas_fuse.Http.{
  Request, Response, Transport, is_busy, classify, settle_answer, settle_build, bearer, retry_from,
  with_retries,
}
use canvas_fuse.Http.Values.{Json, Codecs}
use canvas_fuse.Http.Messages.{HubClient}
use canvas_fuse.Http.Calls.{ask, answer_of}

-- The transport with a count of the requests that were sent.
abbrev pub counted : {N : Type 0} → Transport N → Transport (N × ℕ)
counted t = record {
  send = λ req x. let (a, n) = t.send req x.0 in (a, (n, x.1 + 1));
  sleep = λ ms x. (t.sleep ms x.0, x.1);
  open_file = λ path x. t.open_file path x.0;
}

-- The answer of a hub that is overloaded or not there.
abbrev pub IsOutage : Option Response → Type 0
IsOutage none = Unit
IsOutage (some resp) = is_busy resp.status ≡ true

-- An error is permanent, so that its job is given up, exactly if the status is none of 401, 410, 412,
-- 429 and 500 to 599.
pub classify-Permanent :
    (c : Codecs) (resp : Response)
    → is_permanent (classify c resp)
      ≡ not (
          resp.status == 401 || (resp.status == 410 || (resp.status == 412 || is_busy resp.status)))
unfolding classify is_busy is_permanent
classify-Permanent c resp = ground arith

classify-busy :
    (c : Codecs) (resp : Response)
    → is_busy resp.status ≡ true
    → is_permanent (classify c resp) ≡ false
classify-busy c resp h = rw (classify-Permanent c resp) (rw h (ground arith))

module _ {N : Type 0} (t : Transport N) (c : Codecs) (token : Text) where
  answer-AtMost :
      (left delay k : ℕ) (again : Option HubError → N × ℕ → Result Response × (N × ℕ))
      (x : Option Response × (N × ℕ))
      → ((e : Option HubError) (n : N) (j : ℕ) → (again e (n, j)).1.1 ≤ j + left)
      → x.1.1 ≤ k + 1
      → (settle_answer (counted t) c token left delay again x).1.1 ≤ k + suc left
  unfolding settle_answer
  answer-AtMost left delay k again (none, x) h small = omega (arith, small)
  answer-AtMost left delay k again (some resp, x) h small =
      elim (Bool-cases (is_busy resp.status)) [
        | inr settled ↦ rw settled (omega (arith, small))
        | inl busy ↦ rw busy (go (ltb 0 left))
      ]
    where
      e : Option HubError
      e = some (classify c resp)

      go : (b : Bool) → (again e (if b then (counted t).sleep delay x else x)).1.1 ≤ k + suc left
      go true = omega (arith, h e (t.sleep delay x.0) x.1, small)
      go false = omega (arith, h e x.0 x.1, small)

  build-AtMost :
      (left delay : ℕ) (again : Option HubError → N × ℕ → Result Response × (N × ℕ))
      (req : Result Request) (n : N) (k : ℕ)
      → ((e : Option HubError) (n : N) (j : ℕ) → (again e (n, j)).1.1 ≤ j + left)
      → (settle_build (counted t) c token left delay again req (n, k)).1.1 ≤ k + suc left
  unfolding settle_build
  build-AtMost left delay again (err e) n k h = omega arith
  build-AtMost left delay again (ok req) n k h =
      answer-AtMost left delay k again ((counted t).send (bearer t c token req) (n, k)) h
        (omega arith)

  retry_from-AtMost :
      (left delay : ℕ) (last : Option HubError) (build : N × ℕ → Result Request) (n : N) (k : ℕ)
      → (retry_from (counted t) c token left delay last build (n, k)).1.1 ≤ k + left
  unfolding retry_from
  retry_from-AtMost zero delay last build n k = omega arith
  retry_from-AtMost (suc left) delay last build n k =
      build-AtMost left delay (λ e. retry_from (counted t) c token left (delay * 2) e build)
        (build (n, k)) n k (λ e n' j. retry_from-AtMost left (delay * 2) e build n' j)

  -- A request is sent three times at most, whatever the hub answers.
  pub with_retries-AtMost :
      (build : N × ℕ → Result Request) (n : N) (k : ℕ)
      → (with_retries (counted t) c token build (n, k)).1.1 ≤ k + 3
  unfolding with_retries
  with_retries-AtMost build n k = retry_from-AtMost 3 500 none build n k

  -- The hub is overloaded or not there: the errors that may come of it.
  abbrev pub IsTransient : {A : Type 0} → Result A → Type 0
  IsTransient {A} r = (e : HubError) × (r ≡ err e) × (is_permanent e ≡ false)

  abbrev Fails : Option HubError → Type 0
  Fails last = is_permanent (get_or last other) ≡ false

  answer-Fails :
      (left delay : ℕ) (again : Option HubError → N → Result Response × N) (x : Option Response × N)
      → IsOutage x.0
      → ((e : Option HubError) (n : N) → Fails e → IsTransient (again e n).0)
      → IsTransient (settle_answer t c token left delay again x).0
  unfolding settle_answer is_permanent
  answer-Fails left delay again (none, n) out h = (offline, refl, refl)
  answer-Fails left delay again (some resp, n) out h =
      rw out (h (some (classify c resp)) _ (classify-busy c resp out))

  module _ (outage : (req : Request) (n : N) → IsOutage (t.send req n).0) where
    build-Fails :
        (left delay : ℕ) (again : Option HubError → N → Result Response × N) (req : Result Request)
        (n : N)
        → ((e : HubError) → req ≡ err e → is_permanent e ≡ false)
        → ((e : Option HubError) (n : N) → Fails e → IsTransient (again e n).0)
        → IsTransient (settle_build t c token left delay again req n).0
    unfolding settle_build
    build-Fails left delay again (err e) n b h = (e, refl, b e refl)
    build-Fails left delay again (ok req) n b h =
        answer-Fails left delay again (t.send (bearer t c token req) n)
          (outage (bearer t c token req) n) h

    retry_from-Fails :
        (left delay : ℕ) (last : Option HubError) (build : N → Result Request) (n : N)
        → ((n : N) (e : HubError) → build n ≡ err e → is_permanent e ≡ false)
        → Fails last
        → IsTransient (retry_from t c token left delay last build n).0
    unfolding retry_from
    retry_from-Fails zero delay last build n b f = (get_or last other, refl, f)
    retry_from-Fails (suc left) delay last build n b f =
        build-Fails left delay (λ e. retry_from t c token left (delay * 2) e build) (build n) n
          (b n) (λ e n' f'. retry_from-Fails left (delay * 2) e build n' b f')

module _ {N A : Type 0} (t : Transport N) (c : Codecs) (h : HubClient) where
  answer_of-Fails :
      (f : Json → Result A) (r : Result Response)
      → IsTransient t c h.token r
      → IsTransient t c h.token (answer_of t c h f r)
  unfolding answer_of
  answer_of-Fails f (err e) w = (w.0, ap reworded w.1, w.2)
    where
      reworded : Result Response → Result A
      reworded (err e') = err e'
      reworded (ok resp) = err e
  answer_of-Fails f (ok resp) (e, same, w) = absurd (ground (arith, same))

  -- If the hub answers every request by 429 or 500 to 599, or not at all, a call fails, and with an error
  -- that keeps its job in the queue, also where the file of an upload cannot be opened.
  pub ask-Transient :
      (build : N → Result Request) (f : Json → Result A) (n : N)
      → ((req : Request) (n : N) → IsOutage (t.send req n).0)
      → ((n : N) (e : HubError) → build n ≡ err e → is_permanent e ≡ false)
      → IsTransient t c h.token (ask t c h build f n).0
  unfolding ask with_retries is_permanent
  ask-Transient build f n outage b =
      answer_of-Fails f _ (retry_from-Fails t c h.token outage 3 500 none build n b refl)
