-- ===== src/WsClient/Replies.antt =====
-- What the client makes of what comes over the websocket (rpcclient/wsclient/wsclient.go).
use atomic_swap.Base.{
  ℕ, Bytes, Bool, true, false, codes, Option, some, List, [], ◌∷◌, ◌++◌, ◌≡◌, refl, sym, ap, ◌∙◌,
  if◌then◌else◌,
}
use mathlib.Core.List.{append-nil, append_assoc}
use atomic_swap.Base.Outcome.{Outcome, ok, err, panic, blocked}
use atomic_swap.Errors.{Err, external, wrapped, error}
use atomic_swap.Action.{pure, handle, modify, fail_if, ◌>>=◌}
use atomic_swap.Types.Status.{Status, to_string, is_ongoing}
use atomic_swap.Types.Status.Names.{new_status-to_string}
use atomic_swap.Rpc.Websocket.{Received, received, closed, cancelled}
use atomic_swap.Rpc.Wire.{Codec, WsJson}
use atomic_swap.WsClient.{
  Link, Delivered, reword, first_of, read, error_text, check_error, result_in, post, read_result,
  status_in, follow, follow_offer, id_or_zero,
}
use atomic_swap.WsClient.Wire.{Travels, Asks, Answers, Reported, reply, refusal_of}
use atomic_swap.WsClient.Served.{heard, StatusAnswers, status_messages}

-- The client's error for an error of the server.
abbrev pub refused : Err → Err
refused e =
    wrapped (codes "websocket server returned error")
      (external (error_text (record { message = error e })))

-- How the client's call ends when the server's ended like this.
unfoldable pub told : {A : Type 0} → Outcome Err A → Outcome Err A
told (ok a) = ok a
told (err e) = err (refused e)
told panic = panic
told blocked = blocked

-- The same with the result behind a pointer.
unfoldable pub pointed : {A : Type 0} → Outcome Err A → Outcome Err (Option A)
pointed (ok a) = ok (some a)
pointed (err e) = err (refused e)
pointed panic = panic
pointed blocked = blocked

module _ {F : Type 0} (json : WsJson F) (write_fails : List Bytes → Bool)
    (writes : (ws : List Bytes) → write_fails ws ≡ false) where
  pub post-known :
      {A : Type 0} (c : Codec A) (method : Bytes) (a : A) (k : Asks json c method a) (l : Link)
      → post json write_fails method c a l
        ≡ (ok tt, record l { sent = l.sent ++ (k.request.text ∷ []) })
  unfolding post ◌>>=◌ modify fail_if
  post-known c method a k l =
      rw (k.params.marshalled, k.request.marshalled, writes (l.sent ++ (k.request.text ∷ []))) refl

  result_in-known :
      {S A : Type 0} (t : Bytes) (c : Codec A) (a : A) (k : Answers json c a) (s : S)
      → result_in json write_fails t c k.response.text s ≡ (ok (some a), s)
  unfolding result_in check_error reword handle ◌>>=◌ pure
  result_in-known t c a k s = rw (k.response.unmarshalled, k.result.unmarshalled) refl

  result_in-refused :
      {S A : Type 0} (t : Bytes) (c : Codec A) (e : Err) (k : Travels json.response (refusal_of e))
      (s : S)
      → result_in json write_fails t c k.text s ≡ (err (refused e), s)
  unfolding result_in check_error ◌>>=◌
  result_in-refused t c e k s = rw k.unmarshalled refl

  pub read_result-pointed :
      {A : Type 0} (t : Bytes) (c : Codec A) (r : Outcome Err A) (k : Reported json c r)
      (ms sent : List Bytes)
      → read_result json write_fails t c (record { incoming = reply json c r k ∷ ms; sent = sent })
        ≡ (pointed r, record { incoming = ms; sent = sent })
  unfolding read_result read first_of reword handle pure ◌>>=◌ Reported reply pointed
  read_result-pointed t c (ok a) k ms sent =
      rw (result_in-known {S = Link} t c a k (record { incoming = ms; sent = sent })) refl
  read_result-pointed t c (err e) k ms sent =
      rw (result_in-refused {S = Link} t c e k (record { incoming = ms; sent = sent })) refl
  read_result-pointed t c panic k ms sent = absurd k
  read_result-pointed t c blocked k ms sent = absurd k

  status_in-known :
      (statuses : StatusAnswers json) (st : Status) (d : Delivered)
      → status_in json write_fails (statuses st).response.text d ≡ (ok st, d)
  unfolding status_in ◌>>=◌ pure
  status_in-known statuses st d =
      rw
        (
          result_in-known {S = Delivered} (codes "failed to unmarshal response")
              json.status_response (to_string st) (statuses st) d,
          new_status-to_string st,
        )
        refl

  abbrev delivered : List Status → Delivered → Delivered
  delivered sts d = record d { statuses = d.statuses ++ sts }

  none_more : (d : Delivered) → pure tt d ≡ (ok tt, delivered [] d)
  unfolding pure
  none_more d = ap (λ l. (ok tt, record d { statuses = l })) (sym (append-nil d.statuses))

  gone_on :
      (statuses : StatusAnswers json) (b : Bool) (l : List Status) (d : Delivered)
      → follow json write_fails (status_messages json statuses l) d ≡ (ok tt, delivered l d)
      → (if b
            then follow json write_fails (status_messages json statuses (if b then l else []))
            else pure tt)
          d
        ≡ (ok tt, delivered (if b then l else []) d)
  gone_on statuses true l d k = k
  gone_on statuses false l d k = none_more d

  -- The goroutine delivers exactly what was heard on the status channel.
  pub follow-heard :
      (statuses : StatusAnswers json) (es : List (Received Status)) (d : Delivered)
      → follow json write_fails (status_messages json statuses (heard es)) d
        ≡ (ok tt, record d { statuses = d.statuses ++ heard es })
  unfolding follow heard handle ◌>>=◌ modify
  follow-heard statuses [] d = none_more d
  follow-heard statuses (closed ∷ es) d = none_more d
  follow-heard statuses (cancelled ∷ es) d = none_more d
  follow-heard statuses (received st ∷ es) d =
      let l = if is_ongoing st then heard es else [] in
      rw (status_in-known statuses st d) (
        gone_on statuses (is_ongoing st) (heard es) (delivered (st ∷ []) d)
          (follow-heard statuses es (delivered (st ∷ []) d))
        ∙ ap (λ x. (ok tt, record d { statuses = x })) (append_assoc d.statuses (st ∷ []) l))

  -- The goroutine for an offer delivers the ID of the swap first.
  pub follow_offer-heard :
      (q : ℕ) (k : Answers json json.id_message q) (statuses : StatusAnswers json)
      (es : List (Received Status)) (d : Delivered)
      → follow_offer json write_fails (k.response.text ∷ status_messages json statuses (heard es)) d
        ≡ (ok tt, record { taken = d.taken ++ (q ∷ []); statuses = d.statuses ++ heard es })
  unfolding follow_offer handle ◌>>=◌ modify id_or_zero
  follow_offer-heard q k statuses es d =
      rw
        (result_in-known {S = Delivered} (codes "failed to unmarshal response") json.id_message q k
          d)
        (follow-heard statuses es (record d { taken = d.taken ++ (q ∷ []) }))
