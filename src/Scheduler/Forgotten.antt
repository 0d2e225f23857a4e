-- ===== src/Scheduler/Forgotten.antt =====
-- What is left of a node after its removal: nothing, and the other nodes as they were.
use prim.Prelude.{ℕ, ◌≡◌, ◌≢◌, refl, inl, inr, Bool, true, false, none, Bool-cases, arith}
use prim.Prelude.Dict.{
  lookup, lookup-erase_self, lookup-erase_ne, contains, contains-exclude_self, contains-exclude_ne,
}
use prim.Scheduler.State.{
  Registry, remove_client, remove_info, remove_message_node, remove_seqnum_node,
  remove_msgprocessor,
}
use prim.Scheduler.Auth.{is_message_node, is_seqnum_node}
use prim.Scheduler.Invariant.{WellFormed}
use prim.Scheduler.Removal.{removed}

-- The node `id` is in no map and no set, and every other node is where it was.
pub record Forgotten (id : ℕ) (before after : Registry) : Type 0 where
  pub no_caller : lookup id after.client_map ≡ none
  pub no_info : lookup id after.server_info_map ≡ none
  pub no_message_node : contains id after.message_set ≡ false
  pub no_seqnum_node : contains id after.seqnum_set ≡ false
  pub no_msgprocessor : contains id after.msgprocessor_set ≡ false
  pub callers : (j : ℕ) → j ≢ id → lookup j after.client_map ≡ lookup j before.client_map
  pub infos : (j : ℕ) → j ≢ id → lookup j after.server_info_map ≡ lookup j before.server_info_map
  pub message_nodes :
      (j : ℕ) → j ≢ id → contains j after.message_set ≡ contains j before.message_set
  pub seqnum_nodes : (j : ℕ) → j ≢ id → contains j after.seqnum_set ≡ contains j before.seqnum_set
  pub msgprocessors :
      (j : ℕ) → j ≢ id → contains j after.msgprocessor_set ≡ contains j before.msgprocessor_set

not_true : (b : Bool) → ¬ (b ≡ true) → b ≡ false
not_true b h = elim (Bool-cases b) [ inl e ↦ absurd (h e) | inr e ↦ e ]

module _ (id : ℕ) (r : Registry) (w : WellFormed r) where
  pub message_node-Forgotten :
      is_message_node id ≡ true → Forgotten id r (removed remove_message_node id r)
  unfolding remove_message_node remove_info remove_client
  message_node-Forgotten kind = record {
    no_caller = lookup-erase_self id r.client_map;
    no_info = lookup-erase_self id r.server_info_map;
    no_message_node = contains-exclude_self id r.message_set;
    no_seqnum_node = not_true _ λ e. ground (arith, w.seqnum id e);
    no_msgprocessor = not_true _ λ e. ground (arith, w.msgprocessor id e);
    callers = λ j h. lookup-erase_ne j id r.client_map h;
    infos = λ j h. lookup-erase_ne j id r.server_info_map h;
    message_nodes = λ j h. contains-exclude_ne j id r.message_set h;
    seqnum_nodes = λ j h. refl;
    msgprocessors = λ j h. refl;
  }

  pub seqnum_node-Forgotten :
      is_seqnum_node id ≡ true → Forgotten id r (removed remove_seqnum_node id r)
  unfolding remove_seqnum_node remove_info remove_client
  seqnum_node-Forgotten kind = record {
    no_caller = lookup-erase_self id r.client_map;
    no_info = lookup-erase_self id r.server_info_map;
    no_message_node = not_true _ λ e. ground (arith, w.message id e);
    no_seqnum_node = contains-exclude_self id r.seqnum_set;
    no_msgprocessor = not_true _ λ e. ground (arith, w.msgprocessor id e);
    callers = λ j h. lookup-erase_ne j id r.client_map h;
    infos = λ j h. lookup-erase_ne j id r.server_info_map h;
    message_nodes = λ j h. refl;
    seqnum_nodes = λ j h. contains-exclude_ne j id r.seqnum_set h;
    msgprocessors = λ j h. refl;
  }

  pub msgprocessor-Forgotten :
      is_message_node id ≡ false
      → is_seqnum_node id ≡ false
      → Forgotten id r (removed remove_msgprocessor id r)
  unfolding remove_msgprocessor remove_info remove_client
  msgprocessor-Forgotten not_message not_seqnum = record {
    no_caller = lookup-erase_self id r.client_map;
    no_info = lookup-erase_self id r.server_info_map;
    no_message_node = not_true _ λ e. ground (arith, w.message id e);
    no_seqnum_node = not_true _ λ e. ground (arith, w.seqnum id e);
    no_msgprocessor = contains-exclude_self id r.msgprocessor_set;
    callers = λ j h. lookup-erase_ne j id r.client_map h;
    infos = λ j h. lookup-erase_ne j id r.server_info_map h;
    message_nodes = λ j h. refl;
    seqnum_nodes = λ j h. refl;
    msgprocessors = λ j h. contains-exclude_ne j id r.msgprocessor_set h;
  }
