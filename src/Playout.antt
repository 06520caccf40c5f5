-- ===== src/Playout.antt =====
-- internal/relay/delay.go: the playout buffer of one track. `Heap` is its queue, `Pace` the spacing of
-- packets within a frame, `Clock` the mapping of the sender's clock to the relay's.
pub mod Heap
pub mod Clock
pub mod Pace
pub mod Buffer
mod Tests
