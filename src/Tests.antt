-- ===== src/Tests.antt =====
-- Examples for the builder of tooling/miniutil and the chunks of tooling/minimize.
mod Bodies
mod Builders
mod Printing
mod Types
