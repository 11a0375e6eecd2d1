-- ===== src/Kv/Upstash/Durable.antt =====
-- Over a service that keeps the documented behaviour of SET with NX, UpstashKvStore forgets nothing
-- that was written without a lifetime.
use encryption_gateway.Prelude.{
  ℕ, Text, codes, text_eq_iff, List, [], ◌∷◌, ◌++◌, Option, none, some, true, ok, ◌≡◌, ◌≢◌, arith,
  refl, ap, ◌∙◌,
}
use encryption_gateway.Exec.{pure, >>=-eq-ok, state-continue}
use encryption_gateway.Runtime.{Json, null, str}
use encryption_gateway.Kv.Port.{KvKeeps}
use encryption_gateway.Kv.Upstash.{
  Service, read_answer, command, text_of, is_ok, expiry_words, get, set, set_if_absent, get_delete,
  upstash_port,
}
use encryption_gateway.Kv.Upstash.SingleUse.{IsRedis}

abbrev pub nx : List Text
nx = codes "NX" ∷ []

-- What the documentation of Redis says of a key that has a value and no lifetime: SET with NX
-- replies with null and leaves it alone, GET and the commands on other keys leave it alone too. A
-- SET with NX and without a lifetime that replies with OK makes such a key.
pub record IsDurable {N : Type 0} (service : Service N) (redis : IsRedis service) : Type 1 where
  pub HasValue : Text → service.State → Type 0
  pub nx_stores :
      (now : ℕ) (k v : Text) (s : service.State)
      → read_answer service (service.respond now (codes "SET" ∷ k ∷ v ∷ nx) s).0
        ≡ ok (some (str (codes "OK")))
      → HasValue k (service.respond now (codes "SET" ∷ k ∷ v ∷ nx) s).1
  pub nx_refuses :
      (now : ℕ) (k v : Text) (options : List Text) (s : service.State) (r : Option (Json N))
      → HasValue k s
      → read_answer service (service.respond now (codes "SET" ∷ k ∷ v ∷ (options ++ nx)) s).0 ≡ ok r
      → r ≡ some null
  pub nx_stays :
      (now : ℕ) (k j v : Text) (options : List Text) (s : service.State)
      → HasValue j s
      → HasValue j (service.respond now (codes "SET" ∷ k ∷ v ∷ (options ++ nx)) s).1
  pub get_stays :
      (now : ℕ) (k j : Text) (s : service.State)
      → HasValue j s
      → HasValue j (service.respond now (codes "GET" ∷ k ∷ []) s).1
  pub set_stays :
      (now : ℕ) (k j v : Text) (options : List Text) (s : service.State)
      → j ≢ k
      → HasValue j s
      → HasValue j (service.respond now (codes "SET" ∷ k ∷ v ∷ options) s).1
  pub getdel_stays :
      (now : ℕ) (k j : Text) (s : service.State)
      → j ≢ k
      → HasValue j s
      → HasValue j (service.respond now (codes "GETDEL" ∷ k ∷ []) s).1

module _ {N : Type 0} (service : Service N) (redis : IsRedis service)
    (durable : IsDurable service redis) where
  open durable use {HasValue}

  set_if_absent-reply :
      (now : ℕ) (k v : Text) (ttl : Option ℕ) (s : service.State)
      → (set_if_absent service now k v ttl s).0 ≡ ok true
      → read_answer service
          (service.respond now (codes "SET" ∷ k ∷ v ∷ (expiry_words service ttl ++ nx)) s).0
        ≡ ok (some (str (codes "OK")))
  unfolding set_if_absent command
  set_if_absent-reply now k v ttl s h =
      let (r, e, last) =
        >>=-eq-ok (command service now (codes "SET" ∷ k ∷ v ∷ (expiry_words service ttl ++ nx)))
          (λ r. pure (is_ok service r)) s h in
      by_reply r e (ground (arith, last))
    where
      by_reply :
          (r : Option (Json N))
          → read_answer service
              (service.respond now (codes "SET" ∷ k ∷ v ∷ (expiry_words service ttl ++ nx)) s).0
            ≡ ok r
          → is_ok service r ≡ true
          → read_answer service
              (service.respond now (codes "SET" ∷ k ∷ v ∷ (expiry_words service ttl ++ nx)) s).0
            ≡ ok (some (str (codes "OK")))
      by_reply (some (str t)) e is =
          e ∙ ap (λ w. ok (some (str w))) ((text_eq_iff t (codes "OK")).0 is)
      by_reply _ e is = ground (arith, is)

  pub upstash_keeps : KvKeeps (upstash_port service)
  unfolding get set set_if_absent get_delete command
  upstash_keeps = record {
    Taken = HasValue;
    set_if_absent-taken = λ now k v s h.
        rw (state-continue _ (λ r. ok (is_ok service r)) _)
          (durable.nx_stores now k v s (set_if_absent-reply now k v none s h));
    taken-set_if_absent = λ now k v ttl s h e. null_value _ refl (
        durable.nx_refuses now k v (expiry_words service ttl) s _ h
          (set_if_absent-reply now k v ttl s e));
    get-taken = λ now k j s h.
        rw (state-continue _ (λ r. ok (text_of service r)) _) (durable.get_stays now k j s h);
    set-taken = λ now k j v ttl s ne h.
        rw (state-continue _ (λ r. ok tt) _) (durable.set_stays now k j v _ s ne h);
    set_if_absent_keeps = λ now k j v ttl s h.
        rw (state-continue _ (λ r. ok (is_ok service r)) _) (durable.nx_stays now k j v _ s h);
    get_delete-taken = λ now k j s ne h.
        rw (state-continue _ (λ r. ok (text_of service r)) _) (durable.getdel_stays now k j s ne h);
  }
    where
      null_value : (r : Option (Json N)) → r ≡ some (str (codes "OK")) → r ≢ some null
      null_value r e n = ground (arith, e, n)
