-- ===== src/Pipe.antt =====
-- api/src/file/pipe.rs: pipes. `Ring` is the byte ring that the two ends share, `End` the reading
-- and writing of an end, and `Stream` what any number of readers and writers see of one another.
pub mod Ring
pub mod End
pub mod Stream
mod Tests
