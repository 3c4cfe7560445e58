-- ===== src/Appliance.antt =====
-- src/amnesic_pi: the appliance's configuration, its firewall, and its command line. A text is a list
-- of code points. What the host answers is a parameter: files, the password database, `nft`, `ss`.
pub mod Config
pub mod Firewall
pub mod Cli
pub mod Verify
