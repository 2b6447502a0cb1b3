-- ===== src/Adapters.antt =====
-- The adapters of the VCS providers: how their webhooks become events, and what is verified of them
-- (internal/adapters/vcsgithub/source.go and internal/adapters/vcsbitbucket). HMAC and the decoding of
-- hexadecimal text are parameters, and so is encoding/json.
pub mod Signature
pub mod Github
pub mod Bitbucket
pub mod Events
pub mod Pushes
