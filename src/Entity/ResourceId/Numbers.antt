-- ===== src/Entity/ResourceId/Numbers.antt =====
-- The numbering of the resource ids, looked up: a value of `FromPrimitive` that runs in tests.
use prim.Prelude.{◌≡◌, refl, some, List, [], ◌∷◌}
use prim.External.Primitive.{FromPrimitive}
use prim.External.Primitive.Lookup.{lookup, value-lookup}
use prim.Entity.ResourceId.{
  ReqwestResourceId, value, noop, ping, pong, seqnum, node_auth, message_forward, interrupt_signal,
  connection_timeout, seqnum_node_register, message_node_register, seqnum_node_unregister,
  message_node_unregister, scheduler_node_register, scheduler_node_unregister,
  msgprocessor_node_register, msgprocessor_node_unregister, message_config_hot_reload,
  assign_mq_processor, unassign_mq_processor,
}

abbrev pub resource_ids : List ReqwestResourceId
resource_ids =
    noop ∷ ping ∷ pong ∷ seqnum ∷ node_auth ∷ message_forward ∷ interrupt_signal
    ∷ connection_timeout ∷ seqnum_node_register ∷ message_node_register ∷ seqnum_node_unregister
    ∷ message_node_unregister ∷ scheduler_node_register ∷ scheduler_node_unregister
    ∷ msgprocessor_node_register ∷ msgprocessor_node_unregister ∷ message_config_hot_reload
    ∷ assign_mq_processor ∷ unassign_mq_processor ∷ []

pub resource_of : (r : ReqwestResourceId) → lookup value (value r) resource_ids ≡ some r
unfolding value lookup
resource_of noop = refl
resource_of _ = refl

instance abbrev pub numbered : FromPrimitive value
numbered = record {
  from_u16 = λ n. lookup value n resource_ids;
  from_u16-value = resource_of;
  value-from_u16 = λ n a. value-lookup value n resource_ids a;
}
