-- ===== src/Scheduler/Invariant.antt =====
-- What holds of the shared maps and sets of a scheduler at any time.
use prim.Prelude.{
  if_lem, ℕ, ◌^◌, ◌≤◌, ◌<◌, ◌≡◌, refl, ◌⊎◌, inl, inr, true, false, Option, none, some, List, [],
  ◌∷◌, sym, ap, ◌∙◌, arith,
}
use prim.Prelude.Dict.{Dict, lookup, lookup-erase_self, insert, erase, contains, include, exclude}
use prim.Entity.ServerInfo.{ServerInfo}
use prim.Scheduler.State.{
  Registry, Caller, insert_client, remove_client, insert_info, remove_info, insert_message_node,
  remove_message_node, insert_seqnum_node, remove_seqnum_node, insert_msgprocessor,
  remove_msgprocessor,
}
use prim.Scheduler.Auth.{is_message_node, is_scheduler_node, is_seqnum_node, join, insert_caller}

-- A set has only ids of its kind, and a description stands under its own id.
pub record WellFormed (r : Registry) : Type 0 where
  pub message : (id : ℕ) → contains id r.message_set ≡ true → (1 ≤ id) × (id < 2 ^ 19)
  pub seqnum : (id : ℕ) → contains id r.seqnum_set ≡ true → (2 ^ 20 ≤ id) × (id < 2 ^ 21)
  pub msgprocessor : (id : ℕ) → contains id r.msgprocessor_set ≡ true → (id ≡ 0) ⊎ (2 ^ 21 ≤ id)
  pub described :
      (id : ℕ) (info : ServerInfo) → lookup id r.server_info_map ≡ some info → info.id ≡ id

contains-exclude : (j k : ℕ) (s : List ℕ) → contains j (exclude k s) ≡ true → contains j s ≡ true
contains-exclude j k [] h = h
contains-exclude j k (i ∷ s) h = ground (arith, contains-exclude j k s)

contains-include :
    (j k : ℕ) (s : List ℕ) → contains j (include k s) ≡ true → (j ≡ k) ⊎ (contains j s ≡ true)
contains-include j k s h = ground arith

lookup-erase :
    (j k : ℕ) (d : Dict ServerInfo) (info : ServerInfo)
    → lookup j (erase k d) ≡ some info
    → lookup j d ≡ some info
lookup-erase j k [] info h = h
lookup-erase j k (e ∷ d) info h = ground (arith, lookup-erase j k d info, lookup-erase_self k d)

lookup-insert :
    (k : ℕ) (v : ServerInfo) (d : Dict ServerInfo) (j : ℕ) (info : ServerInfo)
    → lookup j (insert k v d) ≡ some info
    → ((j ≡ k) × (v ≡ info)) ⊎ (lookup j d ≡ some info)
lookup-insert k v d j info h = ground (arith, lookup-erase j k d info)

insert_message_node-WellFormed :
    (id : ℕ) (r : Registry)
    → is_message_node id ≡ true
    → WellFormed r
    → WellFormed (insert_message_node id r)
unfolding insert_message_node
insert_message_node-WellFormed id r kind h = record {
  message = λ j e. ground (arith, contains-include j id r.message_set e, h.message j);
  seqnum = h.seqnum;
  msgprocessor = h.msgprocessor;
  described = h.described;
}

insert_seqnum_node-WellFormed :
    (id : ℕ) (r : Registry)
    → is_seqnum_node id ≡ true
    → WellFormed r
    → WellFormed (insert_seqnum_node id r)
unfolding insert_seqnum_node
insert_seqnum_node-WellFormed id r kind h = record {
  message = h.message;
  seqnum = λ j e. ground (arith, contains-include j id r.seqnum_set e, h.seqnum j);
  msgprocessor = h.msgprocessor;
  described = h.described;
}

insert_msgprocessor-WellFormed :
    (id : ℕ) (r : Registry)
    → is_message_node id ≡ false
    → is_scheduler_node id ≡ false
    → is_seqnum_node id ≡ false
    → WellFormed r
    → WellFormed (insert_msgprocessor id r)
unfolding insert_msgprocessor
insert_msgprocessor-WellFormed id r p q s h = record {
  message = h.message;
  seqnum = h.seqnum;
  msgprocessor =
      λ j e. ground (arith, contains-include j id r.msgprocessor_set e, h.msgprocessor j);
  described = h.described;
}

pub join-WellFormed : (id : ℕ) (r : Registry) → WellFormed r → WellFormed (join id r)
unfolding join
join-WellFormed id r h =
    if_lem WellFormed (is_message_node id) _ _ (λ m. insert_message_node-WellFormed id r m h)
      λ p.
        if_lem WellFormed (is_scheduler_node id) _ _ (λ s. h)
          λ q.
            if_lem WellFormed (is_seqnum_node id) _ _ (λ s. insert_seqnum_node-WellFormed id r s h)
              (λ s. insert_msgprocessor-WellFormed id r p q s h)

pub insert_caller-WellFormed :
    (id : ℕ) (caller : Option Caller) (r : Registry)
    → WellFormed r
    → WellFormed (insert_caller id caller r)
unfolding insert_caller insert_client
insert_caller-WellFormed id none r h = h
insert_caller-WellFormed id (some caller) r h = record {
  message = h.message;
  seqnum = h.seqnum;
  msgprocessor = h.msgprocessor;
  described = h.described;
}

pub remove_client-WellFormed :
    (id : ℕ) (r : Registry) → WellFormed r → WellFormed (remove_client id r)
unfolding remove_client
remove_client-WellFormed id r h = record {
  message = h.message;
  seqnum = h.seqnum;
  msgprocessor = h.msgprocessor;
  described = h.described;
}

pub remove_info-WellFormed : (id : ℕ) (r : Registry) → WellFormed r → WellFormed (remove_info id r)
unfolding remove_info
remove_info-WellFormed id r h = record {
  message = h.message;
  seqnum = h.seqnum;
  msgprocessor = h.msgprocessor;
  described = λ j info e. h.described j info (lookup-erase j id r.server_info_map info e);
}

pub insert_info-WellFormed :
    (info : ServerInfo) (r : Registry) → WellFormed r → WellFormed (insert_info info.id info r)
unfolding insert_info
insert_info-WellFormed info r h = record {
  message = h.message;
  seqnum = h.seqnum;
  msgprocessor = h.msgprocessor;
  described = λ j i e. elim (lookup-insert info.id info r.server_info_map j i e) [
    | inl (same, is) ↦ sym (ap (λ (x : ServerInfo). x.id) is ∙ refl) ∙ sym same
    | inr before ↦ h.described j i before
  ];
}

pub remove_message_node-WellFormed :
    (id : ℕ) (r : Registry) → WellFormed r → WellFormed (remove_message_node id r)
unfolding remove_message_node
remove_message_node-WellFormed id r h = record {
  message = λ j e. h.message j (contains-exclude j id r.message_set e);
  seqnum = h.seqnum;
  msgprocessor = h.msgprocessor;
  described = h.described;
}

pub remove_seqnum_node-WellFormed :
    (id : ℕ) (r : Registry) → WellFormed r → WellFormed (remove_seqnum_node id r)
unfolding remove_seqnum_node
remove_seqnum_node-WellFormed id r h = record {
  message = h.message;
  seqnum = λ j e. h.seqnum j (contains-exclude j id r.seqnum_set e);
  msgprocessor = h.msgprocessor;
  described = h.described;
}

pub remove_msgprocessor-WellFormed :
    (id : ℕ) (r : Registry) → WellFormed r → WellFormed (remove_msgprocessor id r)
unfolding remove_msgprocessor
remove_msgprocessor-WellFormed id r h = record {
  message = h.message;
  seqnum = h.seqnum;
  msgprocessor = λ j e. h.msgprocessor j (contains-exclude j id r.msgprocessor_set e);
  described = h.described;
}
