-- ===== src/Adapter/Tests.antt =====
-- A run of the stream session, and its theorems there.
use iwa_brook_quic.Base.{◌≡◌, refl, true, false, List, [], ◌∷◌}
use iwa_brook_quic.Adapter.{
  on_data_call, on_close_call, SessionEvent, value_arrives, stream_ends, registers, new_session,
  close, pump_value, pump_done, register_stream, session_step, session_run,
}
use iwa_brook_quic.Adapter.Bounds.{IsWithin, session_run-IsWithin}
use iwa_brook_quic.Adapter.Delivery.{InStep, pumped_in, session_run-InStep}

-- A chunk before the handler is there, one after, and the end.
abbrev late_handler : List SessionEvent
late_handler = value_arrives (1 ∷ []) ∷ registers ∷ value_arrives (2 ∷ []) ∷ stream_ends ∷ []

late_handler_calls :
    (session_run late_handler new_session).calls
    ≡ on_data_call (1 ∷ []) false
      ∷ on_data_call (2 ∷ []) false
      ∷ on_data_call [] true
      ∷ on_close_call
      ∷ on_close_call
      ∷ []
unfolding session_run session_step pump_value pump_done register_stream close
late_handler_calls = refl

session_run-InStep_example :
    InStep (pumped_in late_handler new_session) (session_run late_handler new_session)
session_run-InStep_example = session_run-InStep late_handler

session_run-IsWithin_example : IsWithin (session_run late_handler new_session)
session_run-IsWithin_example = session_run-IsWithin late_handler
