-- ===== src/WsClient/Wire.antt =====
-- What it takes for a value to come over the websocket as it is (encoding/json at the types of
-- common/rpctypes).
use atomic_swap.Base.{Bytes, codes, none, some, ◌≡◌}
use atomic_swap.Base.Outcome.{Outcome, ok, err, panic, blocked}
use atomic_swap.Errors.{Err, error}
use atomic_swap.Rpc.Wire.{Codec, WsJson, Request, Response, default_version}

-- The value is encoded, and decoded as it was.
pub record Travels {A : Type 0} (c : Codec A) (a : A) : Type 0 where
  pub text : Bytes
  pub marshalled : c.marshal a ≡ some text
  pub unmarshalled : c.unmarshal text ≡ some (some a)

abbrev pub request_of : Bytes → Bytes → Request
request_of method params = record {
  jsonrpc = default_version;
  method = method;
  params = params;
  id = 0;
}

abbrev pub answer_of : Bytes → Response
answer_of result = record { version = default_version; result = result; error = none }

abbrev pub refusal_of : Err → Response
refusal_of e = record {
  version = default_version;
  result = codes "null";
  error = some (record { message = error e });
}

module _ {F : Type 0} (json : WsJson F) {A : Type 0} (c : Codec A) where
  -- A request of this method with these parameters comes to the server.
  pub record Asks (method : Bytes) (a : A) : Type 0 where
    pub params : Travels c a
    pub request : Travels json.request (request_of method params.text)

  -- A response with this result comes to the client.
  pub record Answers (a : A) : Type 0 where
    pub result : Travels c a
    pub response : Travels json.response (answer_of result.text)

module _ {F : Type 0} (json : WsJson F) {A : Type 0} (c : Codec A) where
  -- How a call ended comes to the client: with its result or with the text of its error.
  unfoldable pub Reported : Outcome Err A → Type 0
  Reported (ok a) = Answers json c a
  Reported (err e) = Travels json.response (refusal_of e)
  Reported panic = ⊥
  Reported blocked = ⊥

  -- The message that tells it.
  unfoldable pub reply : (r : Outcome Err A) → Reported r → Bytes
  unfolding Reported
  reply (ok a) k = k.response.text
  reply (err e) k = k.text
  reply panic k = absurd k
  reply blocked k = absurd k
