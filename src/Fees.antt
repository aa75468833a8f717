-- ===== src/Fees.antt =====
-- x/ibctransfermiddleware and custom/ibc-transfer: the fees on outgoing transfers.
pub mod Config
pub mod Transfer
pub mod Charge
mod Samples
