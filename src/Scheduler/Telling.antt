-- ===== src/Scheduler/Telling.antt =====
-- The calls that a scheduler makes when a node leaves, of the handlers in
-- server/scheduler/src/service/handler/message.rs and msgprocessor.rs.
use prim.Prelude.{
  ℕ, ◌≡◌, refl, sym, subst, Bool, true, false, ◌++◌, append_assoc, append-nil, ◌∙◌, ap, inl, inr,
  Option, none, some, List, [], ◌∷◌, ◌==◌, if◌then◌else◌, Bool-cases, length,
}
use prim.Prelude.Dict.{Dict, lookup}
use prim.Prelude.Action.{Result, ok, err, continue, ◌>>=◌, pure}
use prim.Entity.Reqwest.{ReqwestMsg}
use prim.Scheduler.State.{Registry, Caller, Task, Handler, Error, call_failed, call}
use prim.Scheduler.Nodes.{call_if_some, notify, call_all}

-- The callers of a map, and those of the message nodes other than `id`.
abbrev pub callers : Dict Caller → List Caller
callers [] = []
callers ((id, caller) ∷ d) = caller ∷ callers d

abbrev pub caller_list : Option Caller → List Caller
caller_list none = []
caller_list (some caller) = caller ∷ []

abbrev pub others : ℕ → List ℕ → Dict Caller → List Caller
others id [] d = []
others id (key ∷ keys) d =
    (if key == id then [] else caller_list (lookup key d)) ++ others id keys d

-- The task once a call was made.
abbrev pub called : Caller → ReqwestMsg → Task → Task
called c msg t = record t {
  network = record t.network { calls = t.network.calls ++ ((c, msg) ∷ []) };
}

abbrev pub answers : Task → Bool
answers t = t.network.is_answered (length t.network.calls)

-- Calls of the callers of a list, in this order and each of them answered, lead from one task to
-- the other.
pub data Told : Task → List Caller → Task → Type 0 where
  nobody : (t : Task) → Told t [] t
  one_more :
      (c : Caller) (msg : ReqwestMsg) (list : List Caller) (t t' : Task)
      → answers t ≡ true
      → Told (called c msg t) list t'
      → Told t (c ∷ list) t'

-- The callers of the list are called and all answer, or one of them does not, which is the last that
-- is called, and its error is the result.
pub record Silent {A : Type 0} (list : List Caller) (t : Task) (x : Result Error A × Task)
    : Type 0 where
  pub before : List Caller
  pub c : Caller
  pub after : List Caller
  pub msg : ReqwestMsg
  pub t' : Task
  pub in_list : list ≡ before ++ (c ∷ after)
  pub told : Told t before t'
  pub silent : answers t' ≡ false
  pub ends : x ≡ (err call_failed, called c msg t')

pub data Called (list : List Caller) (t : Task) (x : Result Error (Unit {0}) × Task) : Type 0 where
  answered : (t' : Task) → Told t list t' → x ≡ (ok tt, t') → Called list t x
  unanswered : Silent list t x → Called list t x

pub Told-trans :
    (t t1 t2 : Task) (l l' : List Caller) → Told t l t1 → Told t1 l' t2 → Told t (l ++ l') t2
Told-trans t t1 t2 _ l' (nobody _) later = later
Told-trans t t1 t2 _ l' (one_more c msg l _ _ heard first) later =
    one_more c msg (l ++ l') t t2 heard (Told-trans (called c msg t) t1 t2 l l' first later)

pub registry-Told : (t t' : Task) (l : List Caller) → Told t l t' → t'.registry ≡ t.registry
registry-Told t t' _ (nobody _) = refl
registry-Told t t' _ (one_more c msg l _ _ heard told) = registry-Told (called c msg t) t' l told

-- More was called before, or would have been called after.
Silent-after :
    {A : Type 0} (l l' : List Caller) (t t' : Task) (x : Result Error A × Task)
    → Told t l t'
    → Silent l' t' x
    → Silent (l ++ l') t x
Silent-after l l' t t' x told s = record {
  before = l ++ s.before;
  c = s.c;
  after = s.after;
  msg = s.msg;
  t' = s.t';
  in_list = ap (λ k. l ++ k) s.in_list ∙ sym (append_assoc l s.before (s.c ∷ s.after));
  told = Told-trans t t' s.t' l s.before told s.told;
  silent = s.silent;
  ends = s.ends;
}

pub Silent-before :
    {A B : Type 0} (l l' : List Caller) (t : Task) (x : Result Error A × Task) (f : A → Handler B)
    → Silent l t x
    → Silent (l ++ l') t (continue x f)
Silent-before l l' t x f s = record {
  before = s.before;
  c = s.c;
  after = s.after ++ l';
  msg = s.msg;
  t' = s.t';
  in_list = ap (λ k. k ++ l') s.in_list ∙ append_assoc s.before (s.c ∷ s.after) l';
  told = s.told;
  silent = s.silent;
  ends = ap (λ y. continue y f) s.ends;
}

pub Silent-continue :
    {A B : Type 0} (l : List Caller) (t : Task) (x : Result Error A × Task) (f : A → Handler B)
    → Silent l t x
    → Silent l t (continue x f)
Silent-continue l t x f s =
    subst (λ k. Silent k t (continue x f)) (append-nil l) (Silent-before l [] t x f s)

call-Called :
    (caller : Caller) (msg : ReqwestMsg) (t : Task) → Called (caller ∷ []) t (call caller msg t)
unfolding call
call-Called caller msg t = elim (Bool-cases (answers t)) [
  | inl heard ↦
      answered (called caller msg t)
        (one_more caller msg [] t (called caller msg t) heard (nobody (called caller msg t)))
        (rw heard refl)
  | inr silent ↦ unanswered (record {
    before = [];
    c = caller;
    after = [];
    msg = msg;
    t' = t;
    in_list = refl;
    told = nobody t;
    silent = silent;
    ends = rw silent refl;
  })
]

call_if_some-Called :
    (o : Option Caller) (msg : ReqwestMsg) (t : Task)
    → Called (caller_list o) t (call_if_some o msg t)
unfolding call_if_some pure
call_if_some-Called (some caller) msg t = call-Called caller msg t
call_if_some-Called none msg t = answered t (nobody t) refl

pub Called-after :
    (l l' : List Caller) (t t' : Task) (x : Result Error (Unit {0}) × Task)
    → Told t l t'
    → Called l' t' x
    → Called (l ++ l') t x
Called-after l l' t t' x told (answered t1 more e) =
    answered t1 (Told-trans t t' t1 l l' told more) e
Called-after l l' t t' x told (unanswered s) = unanswered (Silent-after l l' t t' x told s)

then-Called :
    (l l' : List Caller) (t : Task) (x : Result Error (Unit {0}) × Task) (f : Handler (Unit {0}))
    → Called l t x
    → ((t' : Task) → Told t l t' → Called l' t' (f t'))
    → Called (l ++ l') t (continue x (λ u. f))
then-Called l l' t x f (answered t' told e) k =
    rw e (Called-after l l' t t' (f t') told (k t' told))
then-Called l l' t x f (unanswered s) k = unanswered (Silent-before l l' t x (λ u. f) s)

pub call_all-Called :
    (req : ReqwestMsg) (d : Dict Caller) (t : Task) → Called (callers d) t (call_all req d t)
unfolding call_all ◌>>=◌
call_all-Called req [] t = answered t (nobody t) refl
call_all-Called req ((id, caller) ∷ d) t =
    then-Called (caller ∷ []) (callers d) t (call caller req t) (call_all req d)
      (call-Called caller req t) (λ t' told. call_all-Called req d t')

pub notify-Called :
    (id : ℕ) (msg : ReqwestMsg) (keys : List ℕ) (r : Registry) (t : Task)
    → t.registry ≡ r
    → Called (others id keys r.client_map) t (notify id msg keys t)
unfolding notify ◌>>=◌
notify-Called id msg [] r t same = answered t (nobody t) refl
notify-Called id msg (key ∷ keys) r t same = elim (Bool-cases (key == id)) [
  | inl own ↦ rw (notify, own) (notify-Called id msg keys r t same)
  | inr other ↦
      let caller = lookup key t.registry.client_map in
      let found : caller_list caller ≡ caller_list (lookup key r.client_map) =
        ap (λ (r' : Registry). caller_list (lookup key r'.client_map)) same in
      rw (notify, other, ← found)
        (then-Called (caller_list caller) (others id keys r.client_map) t
          (call_if_some caller msg t) (notify id msg keys) (call_if_some-Called caller msg t)
          (λ t' told.
            notify-Called id msg keys r t' (registry-Told t t' (caller_list caller) told ∙ same)))
]
