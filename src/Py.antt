-- ===== src/Py.antt =====
-- What the program uses of Python: values, exceptions, text and addresses.
pub mod Value
pub mod Result
pub mod Iterate
pub mod Text
pub mod Ip
pub mod Repr
pub mod Sort
