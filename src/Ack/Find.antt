-- ===== src/Ack/Find.antt =====
-- The two searches for an awaited acknowledgement, by what `find_at` says of the list.
use ryan_mqtt.Client.{AckHandler}
use ryan_mqtt.Prelude.{Bool, List, find_at, if◌then◌else◌, none, some, ℕ, ◌≡◌}
use ryan_mqtt.World.{World}
use ryan_mqtt.Ack.{ack_list_node_find, ack_list_node_find_by_user_ack_list, awaits}
use ryan_mqtt.Handler.{ack_list_remove_to_ack_list, ack_list_remove_to_user_ack_list}

module _ (packet_type packet_id : ℕ) (remove : Bool) (w : World) where
  pub ack_list_node_find-some :
      {before after : List AckHandler} {y : AckHandler}
      → find_at (awaits packet_type packet_id) w.client.ack_handler_list ≡ some (before, y, after)
      → ack_list_node_find packet_type packet_id remove w
        ≡ (some y, if remove then ack_list_remove_to_ack_list before after w else w)
  unfolding ack_list_node_find
  ack_list_node_find-some e = rw (e, ack_list_node_find)

  pub ack_list_node_find-none :
      find_at (awaits packet_type packet_id) w.client.ack_handler_list ≡ none
      → ack_list_node_find packet_type packet_id remove w ≡ (none, w)
  unfolding ack_list_node_find
  ack_list_node_find-none e = rw (e, ack_list_node_find)

  pub ack_list_node_find_by_user_ack_list-some :
      {before after : List AckHandler} {y : AckHandler}
      → find_at (awaits packet_type packet_id) w.client.user_ack_handler_list
        ≡ some (before, y, after)
      → ack_list_node_find_by_user_ack_list packet_type packet_id remove w
        ≡ (some y, if remove then ack_list_remove_to_user_ack_list before after w else w)
  unfolding ack_list_node_find_by_user_ack_list
  ack_list_node_find_by_user_ack_list-some e = rw (e, ack_list_node_find_by_user_ack_list)

  pub ack_list_node_find_by_user_ack_list-none :
      find_at (awaits packet_type packet_id) w.client.user_ack_handler_list ≡ none
      → ack_list_node_find_by_user_ack_list packet_type packet_id remove w ≡ (none, w)
  unfolding ack_list_node_find_by_user_ack_list
  ack_list_node_find_by_user_ack_list-none e = rw (e, ack_list_node_find_by_user_ack_list)
