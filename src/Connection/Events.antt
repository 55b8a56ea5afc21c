-- ===== src/Connection/Events.antt =====
-- Kinds of events of a connection.
use spartan_x.Prelude.{Bool, true, false}
use spartan_x.Connection.{
  Event, calls_will_suspend, calls_data_handler, receives, closes, frees_slot,
}

abbrev pub is_will_suspend : Event → Bool
is_will_suspend calls_will_suspend = true
is_will_suspend _ = false

abbrev pub is_delivery : Event → Bool
is_delivery (calls_data_handler _) = true
is_delivery _ = false

abbrev pub is_receive : Event → Bool
is_receive receives = true
is_receive _ = false

abbrev pub is_close : Event → Bool
is_close closes = true
is_close _ = false

abbrev pub is_slot : Event → Bool
is_slot frees_slot = true
is_slot _ = false
