-- ===== src/Strategy.antt =====
-- src/strategy.rs: how a listener accepts and registers, chosen by a chain of builders.
use yaoi.Base.{ℕ}

pub data StrategyRegister : Type 0 where
  regular : StrategyRegister
  fixed : ℕ → StrategyRegister

pub data StrategyListener : Type 0 where
  replenish : ℕ → StrategyRegister → ℕ → StrategyListener
  multi : StrategyRegister → ℕ → StrategyListener

pub data NeedRegisterStrategy : Type 0 where
  replenish : ℕ → NeedRegisterStrategy
  multi : NeedRegisterStrategy

pub data NeedCapBounded : Type 0 where
  bounded : StrategyListener → NeedCapBounded

unfoldable pub replenishing : ℕ → NeedRegisterStrategy
replenishing flux_count = NeedRegisterStrategy.replenish flux_count

-- StrategyListener::multi
pub multi_shot : NeedRegisterStrategy
multi_shot = NeedRegisterStrategy.multi

unfoldable pub cap_pool : StrategyListener → ℕ
cap_pool (StrategyListener.replenish _ _ cap) = cap
cap_pool (StrategyListener.multi _ cap) = cap

pub strat_reg : StrategyListener → StrategyRegister
strat_reg (StrategyListener.replenish _ reg _) = reg
strat_reg (StrategyListener.multi reg _) = reg

reg_cap : StrategyRegister → ℕ
reg_cap (fixed r) = r
reg_cap regular = 0

-- Zero means not fixed.
pub cap_fixed : StrategyListener → ℕ
unfolding strat_reg reg_cap
cap_fixed s = reg_cap (strat_reg s)

pub regular_fds : NeedRegisterStrategy → NeedCapBounded
regular_fds (NeedRegisterStrategy.replenish c) = bounded (StrategyListener.replenish c regular 0)
regular_fds NeedRegisterStrategy.multi = bounded (StrategyListener.multi regular 0)

unfoldable pub fixed_fds : NeedRegisterStrategy → ℕ → StrategyListener
fixed_fds (NeedRegisterStrategy.replenish c) fixed_fd_capacity =
    StrategyListener.replenish c (fixed fixed_fd_capacity) fixed_fd_capacity
fixed_fds NeedRegisterStrategy.multi fixed_fd_capacity =
    StrategyListener.multi (fixed fixed_fd_capacity) fixed_fd_capacity

with_cap : StrategyListener → ℕ → StrategyListener
with_cap (StrategyListener.replenish c reg _) pool_cap = StrategyListener.replenish c reg pool_cap
with_cap (StrategyListener.multi reg _) pool_cap = StrategyListener.multi reg pool_cap

pub pool_capacity : NeedCapBounded → ℕ → StrategyListener
unfolding with_cap
pool_capacity (bounded s) pool_cap = with_cap s pool_cap
