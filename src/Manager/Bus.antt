-- ===== src/Manager/Bus.antt =====
-- devices/canbus/AgvCanOperator.cpp and AgvSensorManager.cpp together: what the bus's receiver hands to its
-- listeners is what the manager passes on to the sensors.
use hxdl_driving_control.Prelude.{List, [], ◌∷◌}
use hxdl_driving_control.Can.{Output, quiet, send_heart_beat, handler_data}
use hxdl_driving_control.Manager.{Manager}
use hxdl_driving_control.Manager.Silence.{Input, data_in}
use hxdl_driving_control.Manager.Online as Online
use hxdl_driving_control.Manager.Device.{Device}

-- The calls of HandlerData, the newest first.
unfoldable pub inputs_of : List Output → List Input → List Input
inputs_of [] inputs = inputs
inputs_of (quiet ∷ outs) inputs = inputs_of outs inputs
inputs_of (send_heart_beat ∷ outs) inputs = inputs_of outs inputs
inputs_of (handler_data can_id buf len ∷ outs) inputs =
    inputs_of outs (data_in can_id buf len ∷ inputs)
