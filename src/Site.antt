-- ===== src/Site.antt =====
-- webapp/src/lib: the listings, the links and the documents that the site serves.
pub mod Pages
pub mod Xml
pub mod Listing
pub mod Links
pub mod Sitemap
pub mod Failures
pub mod Stac
pub mod QueryApi
