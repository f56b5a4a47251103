-- ===== src/Ml.antt =====
-- backend/ml: the features, the label encoders, what the scorer makes of a probability, and the bandit.
pub mod Bandit
pub mod Features
pub mod Encoders
pub mod Scoring
