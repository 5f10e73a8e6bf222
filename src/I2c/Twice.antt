-- ===== src/I2c/Twice.antt =====
-- Setting the baud rate of src/drivers/sifive_i2c0.c twice: each call puts the two nodes of the device
-- on the lists of the clock.
use freedom_metal.Prelude.{[], ◌∷◌, ◌++◌}
use freedom_metal.Clock.Order.{Schedule}
use freedom_metal.Uart.Api.{Places, pre_call, post_call}
use freedom_metal.I2c.{I2c}

-- Both lists of a clock, with the two nodes of a device at their ends.
abbrev with_device : Schedule → Places → Schedule
with_device s at = record {
  pre = s.pre ++ (pre_call at ∷ []);
  post = s.post ++ (post_call at ∷ []);
}
