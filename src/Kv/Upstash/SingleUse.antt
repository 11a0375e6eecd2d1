-- ===== src/Kv/Upstash/SingleUse.antt =====
-- Over a service that keeps the documented behaviour of its commands, UpstashKvStore keeps the laws
-- of the port, and a challenge is used at most once.
use encryption_gateway.Prelude.{
  ℕ, Text, codes, List, [], ◌∷◌, All, Option, none, some, ok, ◌≡◌, ◌≢◌, arith, refl, sym, ap, ◌∙◌,
}
use encryption_gateway.Exec.{pure, >>=-eq-ok, state-continue}
use encryption_gateway.Runtime.{Bytes, Json, null, str, Runtime}
use encryption_gateway.Kv.Port.{KvLaws}
use encryption_gateway.Kv.Upstash.{
  Service, read_answer, command, text_of, is_ok, get, set, set_if_absent, get_delete, delete,
  upstash_port,
}
use encryption_gateway.Attestation.Crypto.{Crypto}
use encryption_gateway.Attestation.Challenges.{consume}
use encryption_gateway.Attestation.Challenges.SingleUse.{Call, after_all, IsNoIssue, consume_once}

abbrev pub json_of : {N : Type 0} → Option Text → Json N
json_of none = null
json_of (some t) = str t

-- What the documentation of Redis says of the commands GET, GETDEL, DEL and SET: what a reply
-- without an error holds, that GETDEL removes the key, and that a key without a value gets one only
-- by a SET of that key. `contents t s k` is the value that a read at `t` would find.
pub record IsRedis {N : Type 0} (service : Service N) : Type 1 where
  pub contents : ℕ → service.State → Text → Option Text
  pub get_reply :
      (now : ℕ) (k : Text) (s : service.State) (v : Option (Json N))
      → read_answer service (service.respond now (codes "GET" ∷ k ∷ []) s).0 ≡ ok v
      → v ≡ some (json_of (contents now s k))
  pub getdel_reply :
      (now : ℕ) (k : Text) (s : service.State) (v : Option (Json N))
      → read_answer service (service.respond now (codes "GETDEL" ∷ k ∷ []) s).0 ≡ ok v
      → v ≡ some (json_of (contents now s k))
  pub getdel_removes :
      (now t : ℕ) (k : Text) (s : service.State) (v : Option (Json N))
      → read_answer service (service.respond now (codes "GETDEL" ∷ k ∷ []) s).0 ≡ ok v
      → contents t (service.respond now (codes "GETDEL" ∷ k ∷ []) s).1 k ≡ none
  pub get_keeps :
      (now t : ℕ) (k j : Text) (s : service.State)
      → contents t s j ≡ none
      → contents t (service.respond now (codes "GET" ∷ k ∷ []) s).1 j ≡ none
  pub getdel_keeps :
      (now t : ℕ) (k j : Text) (s : service.State)
      → contents t s j ≡ none
      → contents t (service.respond now (codes "GETDEL" ∷ k ∷ []) s).1 j ≡ none
  pub del_keeps :
      (now t : ℕ) (k j : Text) (s : service.State)
      → contents t s j ≡ none
      → contents t (service.respond now (codes "DEL" ∷ k ∷ []) s).1 j ≡ none
  pub set_keeps :
      (now t : ℕ) (k j v : Text) (options : List Text) (s : service.State)
      → j ≢ k
      → contents t s j ≡ none
      → contents t (service.respond now (codes "SET" ∷ k ∷ v ∷ options) s).1 j ≡ none

absurd_value : {v : Text} {o : Option Text} → some v ≡ o → o ≡ none → ⊥
absurd_value e h = ground arith

module _ {N : Type 0} (service : Service N) (redis : IsRedis service) where
  open redis use {contents}

  abbrev IsAbsent : Text → service.State → Type 0
  IsAbsent k s = (t : ℕ) → contents t s k ≡ none

  text_of-json_of : (o : Option Text) → text_of service (some (json_of o)) ≡ o
  text_of-json_of none = refl
  text_of-json_of (some t) = refl

  get-contents :
      (now : ℕ) (k : Text) (s : service.State) (found : Option Text)
      → (get service now k s).0 ≡ ok found
      → found ≡ contents now s k
  unfolding get command
  get-contents now k s found h =
      let (v, e, last) =
        >>=-eq-ok (command service now (codes "GET" ∷ k ∷ [])) (λ r. pure (text_of service r)) s
          h in
      let read : text_of service v ≡ found = ground (arith, last) in
      sym read
      ∙ ap (text_of service) (redis.get_reply now k s v e)
      ∙ text_of-json_of (contents now s k)

  get_delete-result :
      (now : ℕ) (k : Text) (s : service.State) (found : Option Text)
      → (get_delete service now k s).0 ≡ ok found
      → (v : Option (Json N)) × (read_answer service
            (service.respond now (codes "GETDEL" ∷ k ∷ []) s).0
          ≡ ok v)
        × (text_of service v ≡ found)
  unfolding get_delete command
  get_delete-result now k s found h =
      let (v, e, last) =
        >>=-eq-ok (command service now (codes "GETDEL" ∷ k ∷ [])) (λ r. pure (text_of service r)) s
          h in
      (v, e, ground (arith, last))

  get_delete-contents :
      (now : ℕ) (k : Text) (s : service.State) (found : Option Text)
      → (get_delete service now k s).0 ≡ ok found
      → found ≡ contents now s k
  get_delete-contents now k s found h =
      let (v, e, read) = get_delete-result now k s found h in
      sym read
      ∙ ap (text_of service) (redis.getdel_reply now k s v e)
      ∙ text_of-json_of (contents now s k)

  get_delete-removes :
      (now : ℕ) (k : Text) (s : service.State) (found : Option Text)
      → (get_delete service now k s).0 ≡ ok found
      → IsAbsent k (get_delete service now k s).1
  unfolding get_delete command
  get_delete-removes now k s found h t =
      let (v, e, read) = get_delete-result now k s found h in
      rw (state-continue _ (λ r. ok (text_of service r)) _) (redis.getdel_removes now t k s v e)

  pub upstash_laws : KvLaws (upstash_port service)
  unfolding get set set_if_absent get_delete delete command
  upstash_laws = record {
    Absent = IsAbsent;
    absent-get = λ now k s v h e. absurd_value (get-contents now k s (some v) e) (h now);
    absent-get_delete =
        λ now k s v h e. absurd_value (get_delete-contents now k s (some v) e) (h now);
    get_delete-absent = λ now k s found e. get_delete-removes now k s found e;
    get-keeps = λ now k j s h t.
        rw (state-continue _ (λ r. ok (text_of service r)) _) (redis.get_keeps now t k j s (h t));
    get_delete-keeps = λ now k j s h t.
        rw (state-continue _ (λ r. ok (text_of service r)) _)
          (redis.getdel_keeps now t k j s (h t));
    delete-keeps = λ now k j s h t.
        rw (state-continue _ (λ r. ok (service.is_positive r)) _)
          (redis.del_keeps now t k j s (h t));
    set-keeps = λ now k j v ttl s ne h t.
        rw (state-continue _ (λ r. ok tt) _) (redis.set_keeps now t k j v _ s ne (h t));
    set_if_absent-keeps = λ now k j v ttl s ne h t.
        rw (state-continue _ (λ r. ok (is_ok service r)) _)
          (redis.set_keeps now t k j v _ s ne (h t));
  }

module _ {N : Type 0} (service : Service N) (redis : IsRedis service) (R : Runtime)
    (C : Crypto) where
  -- Over a service that keeps the documented behaviour of Redis, a challenge whose consume has
  -- returned is not used again: no later consume of it returns a nonce, whatever calls come in
  -- between and whichever of them fail, so long as none issues it again.
  pub upstash-consume_once :
      (now later : ℕ) (id expected other : Text) (s : service.State) (found : Option Bytes)
      (cs : List (Call R C (upstash_port service))) (nonce : Bytes)
      → (consume R (upstash_port service) now id expected s).0 ≡ ok found
      → All (IsNoIssue R C (upstash_port service) id) cs
      → (consume R (upstash_port service) later id other (
          after_all R C
            (upstash_port service)
            cs
            (consume R (upstash_port service) now id expected s).1)).0
        ≢ ok (some nonce)
  upstash-consume_once now later id expected other s found cs nonce h quiet =
      consume_once R C (upstash_port service) (upstash_laws service redis) now later id expected
        other s found cs nonce h quiet
