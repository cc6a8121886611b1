-- ===== src/Ise.antt =====
-- ise.go: errors and answers of an ISE node, and the client's calls over `do`. A program over `do`
-- sends a `Request` and gets a body or an error; `Ise.Csrf` models `do` itself over HTTP.
pub mod Texts
pub mod Errors
pub mod Decode
pub mod Calls
pub mod Paging
pub mod Lookup
pub mod Csrf
pub mod Version
pub mod Probe
