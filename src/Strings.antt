-- ===== src/Strings.antt =====
-- The string utilities of
-- mbed/COMPONENT_AZIOT_OTA/iot-hub-device-update_patch/utils/c_utils/string_c_utils.c.
-- A `char*` argument is `Option Bytes`, with `none` for NULL. An output parameter that is written on
-- success only is an `Option` in the result.
pub mod Number
pub mod Trim
pub mod UpdateType
pub mod Files
mod Tests
