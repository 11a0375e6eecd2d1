-- ===== src/Kv/Memory/Refines.antt =====
-- The memory store does what Kv/Spec promises.
use encryption_gateway.Prelude.{
  ℕ, Text, text_eq_iff, text_eq_refl, List, [], ◌∷◌, Option, none, some, ◌≡◌, inl, inr, refl, arith,
  Option-cases, ap, ◌∙◌,
}
use encryption_gateway.OrderedMap
use encryption_gateway.OrderedMap.{IsDistinct}
use encryption_gateway.OrderedMap.Laws.{get-delete}
use encryption_gateway.Kv.Spec.{
  Contents, Call, a_get, a_set, a_set_if_absent, a_get_delete, a_delete, Reply, found, done, flag,
  lasting, Writes, Step, Run,
}
use encryption_gateway.Kv.Memory.{
  MemoryKvStore, IsValid, expiry, get, set, set_if_absent, get_delete, delete, live, view,
}
use encryption_gateway.Kv.Memory.Bounds.{after, after_all, after-IsValid, lookup-IsValid}
use encryption_gateway.Kv.Memory.Views.{
  get-eq-view, get_delete_once, set_lem, set_if_absent_taken, set_if_absent_free,
  set_if_absent_others,
}

-- What can be seen of a store.
abbrev pub seen : MemoryKvStore → Contents
seen s = λ t j. view t s j

abbrev pub reply : Call → MemoryKvStore → Reply
reply (a_get now key) s = found (get now key s).0
reply (a_set now key value ttl) s = done
reply (a_set_if_absent now key value ttl) s = flag (set_if_absent now key value ttl s).0
reply (a_get_delete now key) s = found (get_delete now key s).0
reply (a_delete key) s = flag (delete key s).0

abbrev pub replies : List Call → MemoryKvStore → List Reply
replies [] s = []
replies (c ∷ cs) s = reply c s ∷ replies cs (after c s)

live-lasting :
    (now : ℕ) (value : Text) (ttl : Option ℕ) (t : ℕ)
    → live t (some (record { value = value; expires_at = expiry now ttl }))
      ≡ lasting now value ttl t
live-lasting now value none t = refl
live-lasting now value (some ttl) t = refl

set-Writes :
    (now : ℕ) (key value : Text) (ttl : Option ℕ) (s : MemoryKvStore)
    → IsDistinct s.entries
    → Writes now key value ttl (seen s) (seen (set now key value ttl s))
set-Writes now key value ttl s d =
    let (self, others) = set_lem now key value ttl s d in
    record {
      written = λ t. self t ∙ live-lasting now value ttl t;
      others = λ t j ne le. others t j ne;
    }

delete-Step :
    (key : Text) (s : MemoryKvStore)
    → Step (a_delete key) (seen s) (reply (a_delete key) s) (seen (delete key s).1)
unfolding delete view OrderedMap.has
delete-Step key s = (
  OrderedMap.has key s.entries,
  refl,
  λ not_there t. ground (arith, not_there),
  record {
    removed = λ t. ground (arith, get-delete key key s.entries, text_eq_refl key);
    others = λ t j ne le. ground (arith, get-delete key j s.entries, text_eq_iff key j);
  },
)

set_if_absent-Step :
    (now : ℕ) (key value : Text) (ttl : Option ℕ) (s : MemoryKvStore)
    → IsValid s
    → Step
        (a_set_if_absent now key value ttl)
        (seen s)
        (reply (a_set_if_absent now key value ttl) s)
        (seen (set_if_absent now key value ttl s).1)
set_if_absent-Step now key value ttl s v = elim (Option-cases (view now s key)) [
  | inl free ↦
      let (yes_, self) = set_if_absent_free now key value ttl s free in
      inl (
        free,
        ap flag yes_,
        record {
          written = λ t. self t ∙ live-lasting now value ttl t;
          others =
              set_if_absent_others now key value ttl s (lookup-IsValid now key s v).distinct free;
        },
      )
  | inr (old, taken) ↦
      let (refused, keeps) = set_if_absent_taken now key value ttl s old taken in
      inr (old, taken, ap flag refused, keeps)
]

after-Step :
    (c : Call) (s : MemoryKvStore) → IsValid s → Step c (seen s) (reply c s) (seen (after c s))
after-Step (a_get now key) s v =
    let (value, keeps) = get-eq-view now key s in (ap found value, keeps)
after-Step (a_set now key value ttl) s v = (refl, set-Writes now key value ttl s v.distinct)
after-Step (a_set_if_absent now key value ttl) s v = set_if_absent-Step now key value ttl s v
after-Step (a_get_delete now key) s v =
    let (value, removed, others) = get_delete_once now key s in
    (ap found value, record { removed = removed; others = others })
after-Step (a_delete key) s v = delete-Step key s

-- A run of calls of the memory store, at any times, is a run that the specification allows, with
-- the replies that the store gives.
pub after_all-Run :
    (cs : List Call) (s : MemoryKvStore)
    → IsValid s
    → Run cs (seen s) (replies cs s) (seen (after_all cs s))
after_all-Run [] s v = (refl, refl)
after_all-Run (c ∷ cs) s v = (
  reply c s,
  replies cs (after c s),
  seen (after c s),
  refl,
  after-Step c s v,
  after_all-Run cs (after c s) (after-IsValid c s v),
)
