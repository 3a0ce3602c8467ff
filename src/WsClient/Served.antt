-- ===== src/WsClient/Served.antt =====
-- What the server writes on the websocket (rpc/ws.go).
use atomic_swap.Base.{
  Bytes, Bool, true, false, List, [], ◌∷◌, ◌++◌, ◌≡◌, ◌≢◌, refl, sym, ap, ◌∙◌, map, if◌then◌else◌,
}
use mathlib.Core.List.{append-nil, append_assoc}
use atomic_swap.Base.Outcome.{Outcome, ok, err}
use atomic_swap.Errors.{Err}
use atomic_swap.Action.{Action, pure, hang, modify, fail_if, ◌>>=◌}
use atomic_swap.Action.Inversion.{>>=-known}
use atomic_swap.Types.Status.{Status, to_string, is_ongoing}
use atomic_swap.Rpc.Wire.{Codec, WsJson, Response}
use atomic_swap.Rpc.Websocket.{
  Conn, Received, received, closed, cancelled, write_json, write_response, subscribe,
}
use atomic_swap.WsClient.Wire.{Travels, Answers, answer_of}

-- What a subscriber hears of a status channel: all that is received there, up to and with the first
-- status of a swap that is over.
unfoldable pub heard : List (Received Status) → List Status
heard [] = []
heard (received s ∷ es) = let rest = heard es in s ∷ (if is_ongoing s then rest else [])
heard (closed ∷ es) = []
heard (cancelled ∷ es) = []

-- The statuses all come to the client, by their names.
abbrev pub StatusAnswers : {F : Type 0} → WsJson F → Type 0
StatusAnswers json = (st : Status) → Answers json json.status_response (to_string st)

-- The messages that tell of these statuses.
abbrev pub status_messages :
    {F : Type 0} (json : WsJson F) → StatusAnswers json → List Status → List Bytes
status_messages json statuses = map (λ st. (statuses st).response.text)

module _ {F N : Type 0} (json : WsJson F) (write_fails : List Bytes → Bool)
    (writes : (ws : List Bytes) → write_fails ws ≡ false) where
  abbrev pub said : List Bytes → Conn N → Conn N
  said ts s = record s { written = s.written ++ ts }

  -- A call wrote these messages, and no error came of it; it may still wait.
  pub record Says (ts : List Bytes) (s : Conn N) (r : Outcome Err (Unit {0}) × Conn N)
      : Type 0 where
    pub quiet : (e : Err) → r.0 ≢ err e
    pub written : r.1 ≡ said ts s

  pub write_json-says :
      (r : Response) (t : Travels json.response r) (s : Conn N)
      → write_json json write_fails r s ≡ (ok tt, said (t.text ∷ []) s)
  unfolding write_json ◌>>=◌ modify fail_if
  write_json-says r t s = rw (t.marshalled, writes (s.written ++ (t.text ∷ []))) refl

  pub write_response-says :
      {A : Type 0} (c : Codec A) (a : A) (k : Answers json c a) (s : Conn N)
      → write_response json write_fails c a s ≡ (ok tt, said (k.response.text ∷ []) s)
  unfolding write_response ◌>>=◌
  write_response-says c a k s =
      rw (k.result.marshalled, write_json-says (answer_of k.result.text) k.response s) refl

  Says-pure : (s : Conn N) → Says [] s (pure tt s)
  unfolding pure
  Says-pure s = record {
    quiet = λ e h. cc;
    written = ap (λ ws. record s { written = ws }) (sym (append-nil s.written));
  }

  Says-hang : (s : Conn N) → Says [] s (hang s)
  unfolding hang
  Says-hang s = record {
    quiet = λ e h. cc;
    written = ap (λ ws. record s { written = ws }) (sym (append-nil s.written));
  }

  pub Says-more :
      (ts us : List Bytes) (s : Conn N) (r : Outcome Err (Unit {0}) × Conn N)
      → Says us (said ts s) r
      → Says (ts ++ us) s r
  Says-more ts us s r k = record {
    quiet = k.quiet;
    written = k.written ∙ ap (λ ws. record s { written = ws }) (append_assoc s.written ts us);
  }

  module _ (statuses : StatusAnswers json) where
    if-Says :
        (b : Bool) (rest : Action (Conn N) (Unit {0})) (l : List Status) (s : Conn N)
        → Says (status_messages json statuses l) s (rest s)
        → Says
            (status_messages json statuses (if b then l else []))
            s
            ((if b then rest else pure tt) s)
    if-Says true rest l s k = k
    if-Says false rest l s k = Says-pure s

    pub subscribe-Says :
        (es : List (Received Status)) (s : Conn N)
        → Says (status_messages json statuses (heard es)) s (subscribe json write_fails es s)
    unfolding subscribe heard hang
    subscribe-Says [] s = Says-hang s
    subscribe-Says (closed ∷ es) s = Says-pure s
    subscribe-Says (cancelled ∷ es) s = Says-pure s
    subscribe-Says (received st ∷ es) s =
        let t = (statuses st).response.text in
        let next =
          if-Says (is_ongoing st) (subscribe json write_fails es) (heard es) (said (t ∷ []) s)
            (subscribe-Says es (said (t ∷ []) s)) in
        rw
          (>>=-known (write_response json write_fails json.status_response (to_string st))
            (λ _. if is_ongoing st then subscribe json write_fails es else pure tt) s
            (said (t ∷ []) s) tt
            (write_response-says json.status_response (to_string st) (statuses st) s))
          (Says-more (t ∷ [])
            (status_messages json statuses (if is_ongoing st then heard es else [])) s _ next)
