-- ===== src/Stream.antt =====
-- Byte streams as the program uses them: `io.ReadFull` over a reader, `Write` on a writer, and the
-- big-endian integers of `encoding/binary`.
mod Io
mod Sends
mod BigEndian
unfoldable pub use Io.*
unfoldable pub use Sends.*
unfoldable pub use BigEndian.*
