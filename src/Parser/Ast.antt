-- ===== src/Parser/Ast.antt =====
-- internal/parser/ast.go: the syntax tree. A nil interface value is the constructor `nil`.
use wihajster.Common.{ℕ, List}
use wihajster.Common.Bytes.{Bytes}
use wihajster.Lexer.Token.{Token, TokenType}

pub data TypeSpecifier : Type 0 where
  int char void : TypeSpecifier

pub record TypeName : Type 0 where
  pub token : Token
  pub specifier : TypeSpecifier
  pub pointer_depth : ℕ

mutual
  pub data Expression : Type 0 where
    nil : Expression
    identifier integer_literal character_literal : Token → Bytes → Expression
    unary : Token → TokenType → Expression → Expression
    binary : Token → TokenType → Expression → Expression → Expression
    assignment : Token → Expression → Expression → Expression
    call : Token → Expression → Expressions → Expression

  -- `[]Expression`.
  pub data Expressions : Type 0 where
    no_args : Expressions
    arg : Expression → Expressions → Expressions

pub record Declaration : Type 0 where
  pub token : Token
  pub type_name : TypeName
  pub name : Bytes
  pub initializer : Expression

mutual
  pub data Statement : Type 0 where
    nil : Statement
    block : Token → Statements → Statement
    declaration : Token → Declaration → Statement
    return expression : Token → Expression → Statement
    if_else : Token → Expression → Statement → Statement → Statement
    while : Token → Expression → Statement → Statement
    for : Token → Statement → Expression → Expression → Statement → Statement

  -- `[]Statement`.
  pub data Statements : Type 0 where
    done : Statements
    then_do : Statement → Statements → Statements

pub record FunctionParameter : Type 0 where
  pub token : Token
  pub type_name : TypeName
  pub name : Bytes

pub record FunctionDefinition : Type 0 where
  pub return_type : TypeName
  pub name : Bytes
  pub parameters : List FunctionParameter
  pub body : Statements
  pub token : Token

pub record FunctionPrototype : Type 0 where
  pub token : Token
  pub return_type : TypeName
  pub name : Bytes
  pub parameters : List FunctionParameter

pub record TranslationUnit : Type 0 where
  pub functions : List FunctionDefinition
  pub declarations : List Declaration
  pub prototypes : List FunctionPrototype
