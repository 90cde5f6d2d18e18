-- ===== src/Js.antt =====
-- The parts of JavaScript that the program computes with: strings, numbers, objects with string
-- keys, JSON values.
pub mod Text
pub mod Number
pub mod Object
pub mod Json
