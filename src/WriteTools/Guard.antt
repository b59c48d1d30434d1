-- ===== src/WriteTools/Guard.antt =====
-- `_require` of app/tools/write_tools.py, in front of each write tool.
use bounded_refund_agent.Prelude.{
  refl, ℤ, String, ◌≡◌, Bool, false, ◌&&◌, Option, none, some, ◌==◌, arith,
}
use bounded_refund_agent.Result.{err, permit_required}
use bounded_refund_agent.Clock.{IsoText}
use bounded_refund_agent.Schemas.{ActionName, same_action, ReasonCode, Summary}
use bounded_refund_agent.Db.{Db}
use bounded_refund_agent.WriteTools
use bounded_refund_agent.WriteTools.{WriteAuthorization, require}

-- Whether the authorization is one for the action and the resource.
unfoldable pub authorizes : Option WriteAuthorization → ActionName → String → Bool
unfolding same_action
authorizes none action resource = false
authorizes (some auth) action resource =
    same_action auth.action action && auth.resource_id == resource

require-refuses :
    (auth : Option WriteAuthorization) (action : ActionName) (resource : String) (db : Db)
    → authorizes auth action resource ≡ false
    → require auth action resource db ≡ err permit_required
unfolding authorizes require
require-refuses none action resource db h = refl
require-refuses (some auth) action resource db h = ground arith

-- Without an authorization, or with one for another action or another resource, each of the three write tools
-- raises `PermitRequired`, whatever its other arguments and the tables.
pub unauthorized_raises :
    (auth : Option WriteAuthorization) (id order : String) (version amount : ℤ)
    (reason : ReasonCode) (summary : Summary) (time : IsoText) (db : Db)
    → (authorizes auth ActionName.cancel_order id ≡ false
        → WriteTools.cancel_order auth id version time db ≡ err permit_required)
      × (authorizes auth ActionName.issue_refund id ≡ false
          → WriteTools.issue_refund auth id order amount version time db ≡ err permit_required)
      × (authorizes auth ActionName.create_support_ticket id ≡ false
          → WriteTools.create_support_ticket auth id reason summary time db ≡ err permit_required)
unfolding WriteTools.cancel_order WriteTools.issue_refund WriteTools.create_support_ticket
unauthorized_raises auth id order version amount reason summary time db = (
  λ h. let r = require-refuses auth ActionName.cancel_order id db h in ground arith,
  λ h. let r = require-refuses auth ActionName.issue_refund id db h in ground arith,
  λ h. let r = require-refuses auth ActionName.create_support_ticket id db h in ground arith,
)
