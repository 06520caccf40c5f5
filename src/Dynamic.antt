-- ===== src/Dynamic.antt =====
-- internal/dynamicdelay/delay.go: the delay that the two tracks of a camera share, and its control.
-- A `time.Duration` is a ℤ of nanoseconds; a `time.Time` is a ℤ of nanoseconds since Go's zero time.
pub mod Options
pub mod Curve
pub mod Controller
mod Tests
