-- ===== src/Proxy.antt =====
-- pkg/proxysubscription: proxy nodes and the formats of proxy subscriptions.
pub mod Node
pub mod Words
pub mod Valid
pub mod Codec
pub mod Gather
pub mod Clash
pub mod SingBox
pub mod Query
pub mod Uri
pub mod UriList
pub mod Parse
pub mod Parsed
