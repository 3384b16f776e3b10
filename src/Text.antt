-- ===== src/Text.antt =====
-- Go strings as byte sequences, and the functions of the standard library that the program calls
-- on them. `Compare` compares and takes prefixes, `Split` splits and joins at a separator, `Trim`
-- removes white space, `Number` reads decimal integers,
-- `Binary` has words of bytes.
mod Compare
mod Split
mod Trim
mod Number
mod Binary
pub use Compare.*
pub use Split.*
pub use Trim.*
pub use Number.*
pub use Binary.*
unfoldable pub use Compare.{equal, less, has_prefix, trim_prefix, has_suffix, trim_suffix, contains}
unfoldable pub use Split.{split, join}
unfoldable pub use Trim.{trim_space}
unfoldable pub use Number.{parse_int, format_int}
unfoldable pub use Binary.{put_le, get_le}
